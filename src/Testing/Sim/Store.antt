-- ===== src/Testing/Sim/Store.antt =====
-- `SimStore` of crates/testing/src/sim.rs: compare-and-set grants with a lease, a release that
-- checks ownership, a fence counter, and the resource that checks fences.
use lock_dis.Prelude.{
  ℕ, Bool, true, false, ◌&&◌, not, Option, none, some, if◌then◌else◌, ltb, ◌==◌, add64,
}
use lock_dis.Core.Fencing.{supersedes}

pub record Entry : Type 0 where
  pub holder : ℕ
  pub expires_ms : ℕ
  pub fence : ℕ

pub record SimStore : Type 0 where
  pub now_ms : ℕ
  pub entry : Option Entry
  pub fence_counter : ℕ
  pub last_accepted_fence : ℕ
  pub broken_cas : Bool
  pub broken_fencing : Bool

unfoldable pub blocked : SimStore → Option Entry → Bool
blocked s none = false
blocked s (some e) = ltb s.now_ms e.expires_ms && not s.broken_cas

-- The fence of a grant, or `none` when the key is held.
unfoldable pub cas_grant : SimStore → ℕ → ℕ → Option ℕ × SimStore
unfolding blocked
cas_grant s worker ttl_ms =
    let next = add64 s.fence_counter 1 in
    if blocked s s.entry then (none, s) else (
      some next,
      record s {
        fence_counter = next;
        entry = some (record { holder = worker; expires_ms = add64 s.now_ms ttl_ms; fence = next });
      },
    )

unfoldable pub valid : Option Entry → ℕ → ℕ → ℕ → Bool
valid none worker fence now = false
valid (some e) worker fence now = e.holder == worker && e.fence == fence && ltb now e.expires_ms

unfoldable pub release : SimStore → ℕ → ℕ → Bool × SimStore
unfolding valid
release s worker fence =
    if valid s.entry worker fence s.now_ms then (true, record s { entry = none }) else (false, s)

unfoldable pub holds_validly : SimStore → ℕ → ℕ → Bool
unfolding valid
holds_validly s worker fence = valid s.entry worker fence s.now_ms

unfoldable pub fenced_write : SimStore → ℕ → ℕ → Bool × SimStore
unfolding holds_validly supersedes
fenced_write s worker fence =
    if s.broken_fencing
    then (true, s)
    else if not (holds_validly s worker fence)
    then (false, s)
    else if supersedes fence s.last_accepted_fence
    then (true, record s { last_accepted_fence = fence })
    else (false, s)
