-- ===== src/Examples/Registration.antt =====
-- A client that registers.
use easy_host_k8s.Prelude.{◌≡◌, refl, [], ◌∷◌, codes, bytes_eq}
use easy_host_k8s.World.{World, query, with_entropy}
use easy_host_k8s.Store.Oauth.{create_oauth_client}
use easy_host_k8s.Oauth.{Reply, granted, refused, hash_token, crypto_rand_string}
use easy_host_k8s.Oauth.Registration.{
  ClientRegistrationRequest, ClientRegistrationResponse, register_client, IsRegistered,
  register_client-eq-granted,
}
use easy_host_k8s.Oauth.Toy.{toy_platform}
use easy_host_k8s.Examples.Content.{world}

abbrev registration : ClientRegistrationRequest
registration = record {
  client_name = codes "Tool";
  redirect_uris = codes "http://127.0.0.1/cb" ∷ [];
  grant_types = [];
  response_types = [];
  token_endpoint_auth_method = codes "client_secret_post";
  scope = [];
}

abbrev no_client : ClientRegistrationResponse
no_client = record {
  client_id = [];
  client_secret = [];
  client_id_issued_at = 0;
  client_name = [];
  redirect_uris = [];
  grant_types = [];
  response_types = [];
  token_endpoint_auth_method = [];
  scope = [];
}

abbrev registered_as : Reply ClientRegistrationResponse → ClientRegistrationResponse
registered_as (granted a) = a
registered_as (refused _) = no_client

abbrev registering : Reply ClientRegistrationResponse × World
registering = register_client toy_platform registration world

registered :
    register_client toy_platform registration world
    ≡ (granted (registered_as registering.0), registering.1)
unfolding register_client crypto_rand_string create_oauth_client hash_token query with_entropy
    bytes_eq
registered = refl

register_client-eq-granted_example :
    IsRegistered toy_platform registration registering.1 (registered_as registering.0)
register_client-eq-granted_example =
    register_client-eq-granted toy_platform registration world registering.1
      (registered_as registering.0) registered
