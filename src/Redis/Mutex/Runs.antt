-- ===== src/Redis/Mutex/Runs.antt =====
-- Sequences of script calls by any number of clients on one lock, in the order of the server.
use lock_dis.Prelude.{
  ℕ, suc, ◌+◌, ◌≤◌, ◌<◌, ◌^◌, ◌≡◌, ◌≢◌, refl, List, [], ◌∷◌, String, arith, length,
}
use lock_dis.Redis.Server.{Redis}
use lock_dis.Redis.Mutex.{Reply}
use lock_dis.Redis.Mutex.Lease.{Op, Lease, lease_step}
use lock_dis.Redis.Mutex.Refines.{Shows}
use lock_dis.Redis.Mutex.Promise.{issued, count-issued, issued-lease_step}
use lock_dis.Redis.Mutex.Steps.{perform, Agrees, perform-release, perform-extend, perform-acquire}

-- One call and the server's time of it.
pub record Call : Type 0 where
  pub now : ℕ
  pub op : Op

-- The calls run one after the other, none before `t`.
abbrev pub Ordered : ℕ → List Call → Type 0
Ordered t [] = Unit
Ordered t (c ∷ cs) = (t ≤ c.now) × Ordered c.now cs

-- The time of the last call.
abbrev pub end : ℕ → List Call → ℕ
end t [] = t
end t (c ∷ cs) = end c.now cs

-- The replies and the last state of the lease.
abbrev pub lease_run : Lease → List Call → Lease × List Reply
lease_run l [] = (l, [])
lease_run l (c ∷ cs) =
    let (l', reply) = lease_step l c.now c.op in
    let (l'', rest) = lease_run l' cs in (l'', reply ∷ rest)

module _ (r : Redis) (key fence_key : String) (ne : key ≢ fence_key) where
  open r use {Store, get}

  abbrev pub run : Store → List Call → Store × List Reply
  run s [] = (s, [])
  run s (c ∷ cs) =
      let (s', reply) = perform r key fence_key ne s c.now c.op in
      let (s'', rest) = run s' cs in (s'', reply ∷ rest)

  pub Shows_later :
      (s : Store) (t now : ℕ) (l : Lease)
      → t ≤ now
      → Shows r key fence_key ne s t l
      → Shows r key fence_key ne s now l
  Shows_later s t now l le sh u h = sh u (omega arith)

  pub perform-Agrees :
      (s : Store) (now : ℕ) (l : Lease) (op : Op)
      → Shows r key fence_key ne s now l
      → suc (issued l.counter) < 2 ^ 63
      → Agrees r key fence_key ne now (perform r key fence_key ne s now op) (lease_step l now op)
  perform-Agrees s now l (Op.acquire token ttl fttl) sh room =
      perform-acquire r key fence_key ne s now l token ttl fttl sh
        (omega (arith, count-issued now l.counter))
  perform-Agrees s now l (Op.extend token ttl fttl) sh room =
      perform-extend r key fence_key ne s now l token ttl fttl sh
  perform-Agrees s now l (Op.release token) sh room =
      perform-release r key fence_key ne s now l token sh

  -- However the clients' calls interleave, each gets the reply that the lease gives, and the two
  -- keys show the lease at the end.
  pub run-refines :
      (s : Store) (t : ℕ) (l : Lease) (calls : List Call)
      → Shows r key fence_key ne s t l
      → Ordered t calls
      → issued l.counter + length calls < 2 ^ 63
      → ((run s calls).1 ≡ (lease_run l calls).1)
        × Shows r key fence_key ne (run s calls).0 (end t calls) (lease_run l calls).0
  run-refines s t l [] sh ord room = (refl, sh)
  run-refines s t l (c ∷ cs) sh ord room =
      let (reply, shows) =
        perform-Agrees s c.now l c.op (Shows_later s t c.now l ord.0 sh) (omega arith) in
      let (rest, last) =
        run-refines (perform r key fence_key ne s c.now c.op).0 c.now (lease_step l c.now c.op).0 cs
          shows ord.1 (omega (arith, issued-lease_step l c.now c.op)) in
      (ap2 reply rest, last)
    where
      ap2 : {x y : Reply} {xs ys : List Reply} → x ≡ y → xs ≡ ys → (x ∷ xs) ≡ (y ∷ ys)
      ap2 e f = rw (e, f)
