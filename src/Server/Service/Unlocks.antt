-- ===== src/Server/Service/Unlocks.antt =====
-- What an unlock through the service does (service.rs).
use lock_dis.Prelude.{
  ℕ, ◌≡◌, ◌⊎◌, refl, ap, ◌∙◌, sym, inl, inr, Bool, true, false, Option, none, some, String, ok,
  ◌>>=◌, Bool-cases,
}
use lock_dis.Redis.Server.{Redis, as_text, is_some, Value}
use lock_dis.Redis.Mutex.{is_token}
use lock_dis.Redis.Mutex
use lock_dis.Redis.Manager.{Trip, Link, unlock_with_token, call}
use lock_dis.Redis.Manager.Freed.{Freed, del-Freed}
use lock_dis.Server.Registry.{release}
use lock_dis.Server.Auth.{check_unlock}
use lock_dis.Server.Auth.Resolve.{Acl, resolve}
use lock_dis.Server.Service.{ServiceConfig, Service, Answer, unlock, on_unlocked}

shown_token :
    (o : Option Value) (token : String) → is_token (as_text o) token ≡ true → is_some o ≡ true
shown_token none token e = e
shown_token (some v) token e = refl

module _ (r : Redis) (s : r.Store) (now : ℕ) (key token : String) where
  unlock_owner :
      is_token (r.get s now key) token ≡ true
      → unlock_with_token r Link.up s now key token ≡ ((r.del s now key).0, ok true)
  unfolding unlock_with_token call Mutex.release
  unlock_owner e =
      let there : is_some (r.read s now key) ≡ true =
        shown_token (r.read s now key) token
          (ap (λ x. is_token x token) (sym (r.get-reply s now key)) ∙ e) in
      let one : (r.del s now key).1 ≡ 1 = r.del-reply s now key ∙ rw there in rw (e, one)

  unlock_other :
      is_token (r.get s now key) token ≡ false
      → unlock_with_token r Link.up s now key token ≡ (s, ok false)
  unfolding unlock_with_token call Mutex.release
  unlock_other e = rw e

-- An unlock that is permitted and answered: if the key shows the token it is answered as done, the
-- key never shows the token again and its slot in the registry is freed; if not it is answered as
-- lost, and nothing changes.
pub unlock-answers :
    (r : Redis) (config : ServiceConfig) (acl : Acl) (watchdog_default : Bool)
    (there : Trip r.Store) (sv : Service r.Store) (bearer : Option String) (key token : String)
    → there.link ≡ Link.up
    → (resolve acl bearer >>= λ principal. check_unlock principal key) ≡ ok tt
    → let s = there.meanwhile sv.store in
      let (sv', answer) = unlock r config acl watchdog_default there sv bearer key token in
      ((is_token (r.get s there.now key) token ≡ true)
        × (answer ≡ ok Answer.done)
        × Freed r key token sv'.store there.now
        × (sv'.registry ≡ (release sv.registry key).1)
        × (sv'.book ≡ sv.book))
      ⊎ ((is_token (r.get s there.now key) token ≡ false)
          × (answer ≡ ok Answer.lost)
          × (sv' ≡ record sv { store = s }))
unfolding unlock on_unlocked
unlock-answers r config acl wd there sv bearer key token up permitted =
    let s = there.meanwhile sv.store in
    elim (Bool-cases (is_token (r.get s there.now key) token)) [
      | inl e ↦
          rw (unlock, permitted, up, unlock_owner r s there.now key token e)
            (inl (e, refl, del-Freed r key token s there.now, refl, refl))
      | inr e ↦
          rw (unlock, permitted, up, unlock_other r s there.now key token e) (inr (e, refl, refl))
    ]
