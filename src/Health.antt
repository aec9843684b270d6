-- ===== src/Health.antt =====
-- backend-go/internal/handler/health.go: what the probes of Kubernetes see.
use easy_host_k8s.Prelude.{Bytes, codes, Result, ok, err}
use easy_host_k8s.World.{World, query}
use easy_host_k8s.Http.{HttpRequest, Answer, write_json}

-- The statuses of the program and of its database, or its name and version
pub data HealthValue : Type 0 where
  statuses : Bytes → Bytes → HealthValue
  application : Bytes → Bytes → HealthValue

abbrev pub answer_ping : Result (Unit {0}) → Answer HealthValue
answer_ping (ok u) = write_json 200 (statuses (codes "UP") (codes "UP"))
answer_ping (err e) = write_json 503 (statuses (codes "DOWN") (codes "DOWN"))

-- Health
unfoldable pub health : HttpRequest → World → Answer HealthValue × World
health r w = let (ping, w') = query w in (answer_ping ping, w')

-- Info
unfoldable pub info : HttpRequest → World → Answer HealthValue × World
info r w = (write_json 200 (application (codes "easy-host") (codes "1.0.0")), w)
