-- ===== src/Web/Flash.antt =====
-- The messages that a session carries to the next page.
use easy_host_k8s.Prelude.{
  ◌≡◌, refl, ◌≢◌, ◌∙◌, inl, inr, false, none, some, [], Bytes, codes, bytes_eq, bytes_ne, is_empty,
  Option-cases, insert,
}
use easy_host_k8s.Http.{Session, session_text}
use easy_host_k8s.Web.{get_flash, clear_flash}
use easy_host_k8s.Web.Sessions.{session_text-insert, session_text-remove, session_text-remove_other}

cleared : (key : Bytes) (s : Session) → session_text key (clear_flash key s).1 ≡ none
cleared key s = elim (Option-cases (session_text key s)) [
  | inl missing ↦ rw (missing, clear_flash) missing
  | inr (m, there) ↦ rw (there, clear_flash) (session_text-remove key s)
]

cleared-other :
    (key other : Bytes) (s : Session)
    → other ≢ key
    → session_text other (clear_flash key s).1 ≡ session_text other s
cleared-other key other s ne = elim (Option-cases (session_text key s)) [
  | inl missing ↦ rw (missing, clear_flash) refl
  | inr (m, there) ↦ rw (there, clear_flash) (session_text-remove_other key other s ne)
]

clear_flash-none :
    (key : Bytes) (s : Session) → session_text key s ≡ none → clear_flash key s ≡ ([], s)
clear_flash-none key s missing = rw (missing, clear_flash) refl

clear_flash-some :
    (key m : Bytes) (s : Session) → session_text key s ≡ some m → (clear_flash key s).0 ≡ m
clear_flash-some key m s there = rw (there, clear_flash) refl

success_ne_error : codes "flash_success" ≢ codes "flash_error"
unfolding bytes_eq
success_ne_error = bytes_ne (codes "flash_success") (codes "flash_error") refl

get_flash-spent :
    (s : Session)
    → (session_text (codes "flash_success") (get_flash s).2 ≡ none)
      × (session_text (codes "flash_error") (get_flash s).2 ≡ none)
unfolding get_flash
get_flash-spent s = (
  cleared-other (codes "flash_error") (codes "flash_success") _ success_ne_error
      ∙ cleared (codes "flash_success") s,
  cleared (codes "flash_error") _,
)

get_flash-empty :
    (s : Session)
    → session_text (codes "flash_success") s ≡ none
    → session_text (codes "flash_error") s ≡ none
    → get_flash s ≡ ([], [], s)
unfolding get_flash
get_flash-empty s no_success no_error =
    rw
      (
        clear_flash-none (codes "flash_success") s no_success,
        clear_flash-none (codes "flash_error") s no_error,
      )
      refl

get_flash-shown :
    (message : Bytes) (s : Session)
    → is_empty message ≡ false
    → (get_flash (insert (codes "flash_success") message s)).0 ≡ message
unfolding get_flash
get_flash-shown message s given =
    clear_flash-some (codes "flash_success") message _
      (session_text-insert (codes "flash_success") message s given)

-- A message of success that one answer leaves in the session is what the next page shows, and the
-- session that this page leaves has no message for the page after it.
pub get_flash-once :
    (message : Bytes) (s : Session)
    → is_empty message ≡ false
    → let s' = insert (codes "flash_success") message s in
      ((get_flash s').0 ≡ message) × (get_flash (get_flash s').2 ≡ ([], [], (get_flash s').2))
get_flash-once message s given =
    let s' = insert (codes "flash_success") message s in
    let (no_success, no_error) = get_flash-spent s' in
    (get_flash-shown message s given, get_flash-empty (get_flash s').2 no_success no_error)
