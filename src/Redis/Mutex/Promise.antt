-- ===== src/Redis/Mutex/Promise.antt =====
-- What one operation does to the lease: to the owner, to the counter, and to their deadlines.
use lock_dis.Prelude.{
  ℕ, zero, suc, ◌+◌, ◌≤◌, ◌<◌, ◌≡◌, ◌≢◌, refl, sym, inl, inr, Option, none, some, String, same,
  same_ne, arith, Bool-cases,
}
use lock_dis.Redis.Mutex.{is_token}
use lock_dis.Redis.Mutex.Lease.{
  Op, Leased, Lease, at, renewed, count, answer, granted, promise, lease_step,
}

abbrev pub token_of : Op → String
token_of (Op.acquire token _ _) = token
token_of (Op.extend token _ _) = token
token_of (Op.release token) = token

-- The lease time that an operation may start at `now`, and the counter's.
abbrev pub lasts : ℕ → Op → ℕ
lasts now (Op.acquire _ ttl _) = now + ttl
lasts now (Op.extend _ ttl _) = now + ttl
lasts now (Op.release _) = now

-- How long a counter that was to live until `d` lives after an operation at `now` with the given
-- status: one that succeeds gives it a new lifetime, unless it is a release.
abbrev pub counter_until : ℕ → ℕ → Op → ℕ → ℕ
counter_until d now (Op.acquire _ _ fence_ttl) zero = d
counter_until d now (Op.acquire _ _ fence_ttl) (suc _) = now + fence_ttl
counter_until d now (Op.extend _ _ fence_ttl) zero = d
counter_until d now (Op.extend _ _ fence_ttl) (suc _) = now + fence_ttl
counter_until d now (Op.release _) _ = d

abbrev pub issued : Option (Leased ℕ) → ℕ
issued none = 0
issued (some c) = c.value

-- The counter shows at least `n` before `d`.
abbrev pub Reached : ℕ → ℕ → Option (Leased ℕ) → Type 0
Reached n d none = ⊥
Reached n d (some c) = (n ≤ c.value) × (d ≤ c.deadline)

-- Whoever holds the lease, it is over at `u`.
abbrev pub OverBy : ℕ → Option (Leased String) → Type 0
OverBy u none = Unit
OverBy u (some o) = o.deadline ≤ u

pub count-issued : (t : ℕ) (c : Option (Leased ℕ)) → count (at t c) ≤ issued c
count-issued t none = omega arith
count-issued t (some c) = ground arith

issued-renewed : (now d : ℕ) (c : Option (Leased ℕ)) → issued (renewed (at now c) d) ≤ issued c
issued-renewed now d none = omega arith
issued-renewed now d (some c) = ground arith

Reached-renewed :
    (n d now d₂ : ℕ) (c : Option (Leased ℕ))
    → Reached n d c
    → now < d
    → Reached n d₂ (renewed (at now c) d₂)
Reached-renewed n d now d₂ none h lt = absurd h
Reached-renewed n d now d₂ (some c) h lt = ground arith

pub Reached-count :
    (n d now : ℕ) (c : Option (Leased ℕ)) → Reached n d c → now < d → n ≤ count (at now c)
Reached-count n d now none h lt = absurd h
Reached-count n d now (some c) h lt = ground arith

issued-promise :
    (l : Lease) (now : ℕ) (own : Option String) (op : Op)
    → issued (promise l now own op).0.counter ≤ suc (issued l.counter)
unfolding promise granted
issued-promise l now none (Op.acquire token ttl fttl) = omega (arith, count-issued now l.counter)
issued-promise l now (some v) (Op.acquire token ttl fttl) = elim (Bool-cases (same v token)) [
  | inl e ↦ rw e (omega (arith, count-issued now l.counter))
  | inr e ↦ rw e (omega arith)
]
issued-promise l now own (Op.extend token ttl fttl) = elim (Bool-cases (is_token own token)) [
  | inl e ↦ rw e (omega (arith, issued-renewed now (now + fttl) l.counter))
  | inr e ↦ rw e (omega arith)
]
issued-promise l now own (Op.release token) = elim (Bool-cases (is_token own token)) [
  | inl e ↦ rw e (omega arith)
  | inr e ↦ rw e (omega arith)
]

pub issued-lease_step :
    (l : Lease) (now : ℕ) (op : Op)
    → issued (lease_step l now op).0.counter ≤ suc (issued l.counter)
unfolding lease_step
issued-lease_step l now op = issued-promise l now (at now l.owner) op

promise_foreign :
    (l : Lease) (now : ℕ) (a : String) (op : Op)
    → token_of op ≢ a
    → promise l now (some a) op ≡ (l, answer 0 0)
unfolding promise
promise_foreign l now a (Op.acquire token ttl fttl) n = rw (same_ne a token (λ e. n (sym e)))
promise_foreign l now a (Op.extend token ttl fttl) n = rw (same_ne a token (λ e. n (sym e)))
promise_foreign l now a (Op.release token) n = rw (same_ne a token (λ e. n (sym e)))

-- Another token's operation does nothing to a lease that is held.
pub lease_step-foreign :
    (l : Lease) (now : ℕ) (op : Op) (a : String) (d : ℕ)
    → l.owner ≡ some (record { value = a; deadline = d })
    → now < d
    → token_of op ≢ a
    → lease_step l now op ≡ (l, answer 0 0)
unfolding lease_step
lease_step-foreign l now op a d e lt n =
    let held : at now l.owner ≡ some a = ground arith in rw held (promise_foreign l now a op n)

promise-Reached :
    (l : Lease) (now : ℕ) (own : Option String) (op : Op) (n d : ℕ)
    → Reached n d l.counter
    → now < d
    → let next = promise l now own op in
      Reached n (counter_until d now op next.1.status) next.0.counter
unfolding promise granted
promise-Reached l now none (Op.acquire token ttl fttl) n d h lt =
    omega (arith, Reached-count n d now l.counter h lt)
promise-Reached l now (some v) (Op.acquire token ttl fttl) n d h lt =
    elim (Bool-cases (same v token)) [
      | inl e ↦ rw e (omega (arith, Reached-count n d now l.counter h lt))
      | inr e ↦ rw e h
    ]
promise-Reached l now own (Op.extend token ttl fttl) n d h lt =
    elim (Bool-cases (is_token own token)) [
      | inl e ↦ rw e (Reached-renewed n d now (now + fttl) l.counter h lt)
      | inr e ↦ rw e h
    ]
promise-Reached l now own (Op.release token) n d h lt = elim (Bool-cases (is_token own token)) [
  | inl e ↦ rw e h
  | inr e ↦ rw e h
]

pub lease_step-Reached :
    (l : Lease) (now : ℕ) (op : Op) (n d : ℕ)
    → Reached n d l.counter
    → now < d
    → Reached n
        (counter_until d now op (lease_step l now op).1.status)
        (lease_step l now op).0.counter
unfolding lease_step
lease_step-Reached l now op n d h lt = promise-Reached l now (at now l.owner) op n d h lt

OverBy-renewed : (u d : ℕ) (own : Option String) → d ≤ u → OverBy u (renewed own d)
OverBy-renewed u d none le = tt
OverBy-renewed u d (some v) le = le

promise-OverBy :
    (l : Lease) (now : ℕ) (own : Option String) (op : Op) (u : ℕ)
    → OverBy u l.owner
    → lasts now op ≤ u
    → OverBy u (promise l now own op).0.owner
unfolding promise granted
promise-OverBy l now none (Op.acquire token ttl fttl) u h le = le
promise-OverBy l now (some v) (Op.acquire token ttl fttl) u h le =
    elim (Bool-cases (same v token)) [ inl e ↦ rw e le | inr e ↦ rw e h ]
promise-OverBy l now own (Op.extend token ttl fttl) u h le =
    elim (Bool-cases (is_token own token)) [
      | inl e ↦ rw e (OverBy-renewed u (now + ttl) own le)
      | inr e ↦ rw e h
    ]
promise-OverBy l now own (Op.release token) u h le = elim (Bool-cases (is_token own token)) [
  | inl e ↦ rw e tt
  | inr e ↦ rw e h
]

pub lease_step-OverBy :
    (l : Lease) (now : ℕ) (op : Op) (u : ℕ)
    → OverBy u l.owner
    → lasts now op ≤ u
    → OverBy u (lease_step l now op).0.owner
unfolding lease_step
lease_step-OverBy l now op u h le = promise-OverBy l now (at now l.owner) op u h le

OverBy-at : (u : ℕ) (o : Option (Leased String)) → OverBy u o → at u o ≡ none
OverBy-at u none h = refl
OverBy-at u (some o) h = ground arith

-- The lease after a grant, and a grant where nobody holds it.
pub lease_step-over :
    (l : Lease) (u : ℕ) (token : String) (ttl fence_ttl : ℕ)
    → OverBy u l.owner
    → lease_step l u (Op.acquire token ttl fence_ttl) ≡ granted l u token ttl fence_ttl 1
unfolding lease_step promise
lease_step-over l u token ttl fttl h = rw (OverBy-at u l.owner h)

promise_grant :
    (l : Lease) (now : ℕ) (own : Option String) (token : String) (ttl fence_ttl : ℕ)
    → (promise l now own (Op.acquire token ttl fence_ttl)).1.status ≢ 0
    → (status : ℕ) × (promise l now own (Op.acquire token ttl fence_ttl)
        ≡ granted l now token ttl fence_ttl status)
unfolding promise
promise_grant l now none token ttl fttl h = (1, refl)
promise_grant l now (some v) token ttl fttl h = elim (Bool-cases (same v token)) [
  | inl e ↦ (2, rw e)
  | inr e ↦ absurd (h (rw e))
]

pub lease_step-grant :
    (l : Lease) (now : ℕ) (token : String) (ttl fence_ttl : ℕ)
    → (lease_step l now (Op.acquire token ttl fence_ttl)).1.status ≢ 0
    → (status : ℕ) × (lease_step l now (Op.acquire token ttl fence_ttl)
        ≡ granted l now token ttl fence_ttl status)
unfolding lease_step
lease_step-grant l now token ttl fttl h = promise_grant l now (at now l.owner) token ttl fttl h
