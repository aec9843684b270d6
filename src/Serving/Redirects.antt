-- ===== src/Serving/Redirects.antt =====
-- Where the handlers of serving.go send a visitor: safeNext, and the answers that go through it.
use easy_host_k8s.Prelude.{
  ℕ, ◌≡◌, refl, ◌↔◌, ◌⊎◌, inl, inr, true, false, ◌||◌, [], ◌∷◌, ◌++◌, Bytes, codes, bytes_eq_iff,
  has_prefix, has_prefix→append, has_prefix-append, contains, Occurs, contains_iff, any, ◌==◌,
  subst, Bool-cases, Result, ok, err, arith, append_assoc, sym, ◌∙◌, passphrase_required,
  wrong_passphrase, not_encrypted, corrupted,
}
use easy_host_k8s.World.{World, with_entropy}
use easy_host_k8s.Model.{ContentFile}
use easy_host_k8s.Unlock.{seal_token}
use easy_host_k8s.Content.Service.{get_file, unlock}
use easy_host_k8s.Serving.{
  Request, Body, page, prompt, message, redirect, ServingHandler, content_path, safe_next,
  is_unsafe, breaks_header, http_error, found_at, prompt_unlock, file_response, respond_file,
  serve_file, dek_from_cookie, hand_over, respond_unlock, submit_passphrase,
}

-- A target with nothing in it that leads elsewhere: no "..", no "//", no backslash, no line break.
pub record IsPlain (target : Bytes) : Type 0 where
  pub no_parent : ¬ Occurs (codes "..") target
  pub no_host : ¬ Occurs (codes "//") target
  pub no_backslash : ¬ Occurs (codes "\\") target
  pub no_return : ¬ Occurs (13 ∷ []) target
  pub no_newline : ¬ Occurs (10 ∷ []) target

-- The path of the content at a slug, or a plain target below it
abbrev pub IsSafe : Bytes → Bytes → Type 0
IsSafe slug target =
    (target ≡ codes "/s/" ++ slug)
    ⊎ ((rest : Bytes) × (target ≡ (codes "/s/" ++ slug) ++ (codes "/" ++ rest)) × IsPlain target)

contains_byte : (c : ℕ) (s : Bytes) → contains s (c ∷ []) ≡ any (λ d. d == c) s
contains_byte c [] = refl
contains_byte c (d ∷ s) = ground (arith, contains_byte c s)

breaks_header-eq :
    (s : Bytes)
    → breaks_header s ≡ (contains s (codes "\\") || (contains s (13 ∷ []) || contains s (10 ∷ [])))
breaks_header-eq [] = refl
breaks_header-eq (c ∷ s) = ground (arith, breaks_header-eq s)

-- The test of the source decides whether a target is plain.
is_unsafe-IsPlain : (s : Bytes) → is_unsafe s ≡ false → IsPlain s
is_unsafe-IsPlain s h = record {
  no_parent = λ o. ground (arith, (contains_iff s (codes "..")).1 o);
  no_host = λ o. ground (arith, (contains_iff s (codes "//")).1 o);
  no_backslash = λ o. ground (arith, breaks_header-eq s, (contains_iff s (codes "\\")).1 o);
  no_return = λ o. ground (arith, breaks_header-eq s, (contains_iff s (13 ∷ [])).1 o);
  no_newline = λ o. ground (arith, breaks_header-eq s, (contains_iff s (10 ∷ [])).1 o);
}

refute : (s sub : Bytes) → ¬ Occurs sub s → contains s sub ≡ false
refute s sub h = elim (Bool-cases (contains s sub)) [
  | inl found ↦ absurd (h ((contains_iff s sub).0 found))
  | inr gone ↦ gone
]

IsPlain-is_unsafe : (s : Bytes) → IsPlain s → is_unsafe s ≡ false
IsPlain-is_unsafe s plain = ground (
  arith,
  breaks_header-eq s,
  refute s (codes "..") plain.no_parent,
  refute s (codes "//") plain.no_host,
  refute s (codes "\\") plain.no_backslash,
  refute s (13 ∷ []) plain.no_return,
  refute s (10 ∷ []) plain.no_newline,
)

module _ (slug : Bytes) where
  -- What is below the content's path, by the test of the source
  below :
      (next : Bytes)
      → has_prefix next ((codes "/s/" ++ slug) ++ codes "/") ≡ true
      → (rest : Bytes) × (next ≡ (codes "/s/" ++ slug) ++ (codes "/" ++ rest))
  below next h =
      let (rest, e) = has_prefix→append next ((codes "/s/" ++ slug) ++ codes "/") h in
      (rest, e ∙ append_assoc (codes "/s/" ++ slug) (codes "/") rest)

  -- Whatever the form asks for, the target after unlocking is the path of the content, or a target
  -- below it with nothing in it that leads to another host, out of the content or into another header.
  pub safe_next-IsSafe : (next : Bytes) → IsSafe slug (safe_next slug next)
  unfolding safe_next content_path
  safe_next-IsSafe next = elim (Bool-cases (is_unsafe next)) [
    | inl unsafe ↦ inl (ground arith)
    | inr plain ↦ elim (Bool-cases (has_prefix next ((codes "/s/" ++ slug) ++ codes "/"))) [
      | inl inside ↦
          let (rest, e) = below next inside in
          let same : safe_next slug next ≡ next = ground arith in
          inr (rest, same ∙ e, rw same (is_unsafe-IsPlain next plain))
      | inr outside ↦ inl (ground (arith, bytes_eq_iff next (codes "/s/" ++ slug)))
    ]
  ]

  kept : (next : Bytes) → IsSafe slug next → safe_next slug next ≡ next
  unfolding safe_next content_path
  kept next (inl e) =
      let own = (bytes_eq_iff next (codes "/s/" ++ slug)).1 e in ground (arith, own, e)
  kept next (inr (rest, e, plain)) =
      let safe = IsPlain-is_unsafe next plain in
      let under : has_prefix next ((codes "/s/" ++ slug) ++ codes "/") ≡ true =
        subst (λ s. has_prefix s ((codes "/s/" ++ slug) ++ codes "/") ≡ true)
          (append_assoc (codes "/s/" ++ slug) (codes "/") rest ∙ sym e)
          (has_prefix-append ((codes "/s/" ++ slug) ++ codes "/") rest) in
      ground arith

  -- The target that the form asks for is kept exactly if it is safe: the path of the content, or a
  -- target below it with no "..", no "//", no backslash and no line break.
  pub safe_next_iff : (next : Bytes) → (safe_next slug next ≡ next) ↔ IsSafe slug next
  safe_next_iff next = (λ e. subst (IsSafe slug) e (safe_next-IsSafe next), kept next)

-- What an answer leads to: a redirect, or the form's hidden field
abbrev pub LeadsTo : Bytes → Body → Type 0
LeadsTo slug (page _) = Unit
LeadsTo slug (message _) = Unit
LeadsTo slug (prompt d) = (d.slug ≡ slug) × IsSafe slug d.next
LeadsTo slug (redirect target) = IsSafe slug target

module _ (h : ServingHandler) (r : Request) (slug : Bytes) where
  respond_file-LeadsTo : (f : Result ContentFile) → LeadsTo slug (respond_file h r slug f).body
  unfolding respond_file prompt_unlock http_error file_response
  respond_file-LeadsTo (ok f) = tt
  respond_file-LeadsTo (err passphrase_required) = (refl, safe_next-IsSafe slug r.path)
  respond_file-LeadsTo (err corrupted) = (refl, safe_next-IsSafe slug r.path)
  respond_file-LeadsTo (err e) = tt

  hand_over-LeadsTo :
      (next : Bytes) (token : Result Bytes)
      → IsSafe slug next
      → LeadsTo slug (hand_over h slug next token).body
  unfolding http_error found_at
  hand_over-LeadsTo next (ok token) safe = safe
  hand_over-LeadsTo next (err e) safe = tt

  respond_unlock-LeadsTo :
      (next : Bytes) (dek : Result Bytes) (w : World)
      → IsSafe slug next
      → LeadsTo slug (respond_unlock h slug next dek w).0.body
  unfolding respond_unlock prompt_unlock http_error found_at
  respond_unlock-LeadsTo next (ok dek) w safe =
      hand_over-LeadsTo next
        (with_entropy (seal_token h.platform.primitives h.unlocker w.clock slug dek) w).0 safe
  respond_unlock-LeadsTo next (err passphrase_required) w safe = (refl, safe_next-IsSafe slug next)
  respond_unlock-LeadsTo next (err wrong_passphrase) w safe = (refl, safe_next-IsSafe slug next)
  respond_unlock-LeadsTo next (err not_encrypted) w safe = safe
  respond_unlock-LeadsTo next (err e) w safe = tt

  -- Serving a file, the passphrase form names the slug it was asked for, and the page that it comes back
  -- to is safe.
  pub serve_file-LeadsTo :
      (path : Bytes) (w : World) → LeadsTo slug (serve_file h r slug path w).0.body
  unfolding serve_file
  serve_file-LeadsTo path w =
      respond_file-LeadsTo (get_file h.platform slug path (dek_from_cookie h w.clock r slug) w).0

  -- Every answer to a submitted passphrase stays inside the content that is unlocked: its redirect and
  -- the page that its form comes back to are the path of the content, or a target below it with no
  -- "..", no "//", no backslash and no line break, whatever the request asks for and whatever fails.
  pub submit_passphrase-LeadsTo : (w : World) → LeadsTo slug (submit_passphrase h r slug w).0.body
  unfolding submit_passphrase
  submit_passphrase-LeadsTo w =
      let (dek, w') = unlock h.platform slug r.passphrase w in
      respond_unlock-LeadsTo (safe_next slug r.next) dek w' (safe_next-IsSafe slug r.next)
