-- ===== src/Launch/Supervisor/Tokens.antt =====
-- The supervisor of crates/agent-seat-x11/src/launch.rs over any launches: its bound on children
-- and the tokens it hands out.
use agent_seat_proto.Prelude.{
  ℕ, ◌+◌, ◌^◌, ◌≡◌, ◌≢◌, ◌≤◌, ◌<◌, refl, arith, true, false, ltb, ◌==◌, List, [], ◌∷◌, length,
  Result, ok, err, Bool-cases, inl, inr, length-append,
}
use agent_seat_proto.Proto.Identity.{LaunchToken, IsNonzero}
use agent_seat_proto.Proto.Requests.{ApplicationId}
use agent_seat_proto.Launch.Catalog.{Failure, LaunchPolicy, CatalogEntry}
use agent_seat_proto.Launch.Supervisor.{
  System, Supervisor, Started, max_active_children, reap_children, spawned, started, launch_entry,
  launch,
}
use agent_seat_proto.Launch.Supervisor.Reaping.{length-reap_children}

pub record Bounded (s : Supervisor) : Type 0 where
  pub token : IsNonzero s.next_token
  pub children : length s.children ≤ max_active_children

-- What one launch does to the supervisor and the token it hands out.
record Issued (s : Supervisor) (r : Result Failure Started × Supervisor) : Type 0 where
  bounded : Bounded r.1
  later : s.next_token ≤ r.1.next_token
  fresh : (x : Started) → r.0 ≡ ok x → (x.token ≡ s.next_token) × (s.next_token < r.1.next_token)

spawned-room :
    (system : System) (s : Supervisor) (entry : CatalogEntry) (numeric child : ℕ) (running : List ℕ)
    → spawned system s entry numeric running ≡ ok child
    → length running ≢ max_active_children
spawned-room system s entry numeric child running h full =
    let a : (length running == max_active_children) ≡ true = ground arith in absurd (cc (rw a at h))

started-Issued :
    (system : System) (s t : Supervisor) (numeric : ℕ) (running : List ℕ) (r : Result Failure ℕ)
    → IsNonzero t.next_token
    → numeric ≡ s.next_token
    → s.next_token < t.next_token
    → length running ≤ max_active_children
    → ((child : ℕ) → r ≡ ok child → length running ≢ max_active_children)
    → Issued s (started system t numeric running r)
started-Issued system s t numeric running (err error) nonzero is_next later fits room = record {
  bounded = record { token = nonzero; children = fits };
  later = omega arith;
  fresh = λ x h. absurd cc;
}
started-Issued system s t numeric running (ok child) nonzero is_next later fits room =
    let longer = length-append running (child ∷ []) in
    let below = room child refl in
    record {
      bounded = record { token = nonzero; children = omega arith };
      later = omega arith;
      fresh = λ x h. (cc, later);
    }

start_entry-Issued :
    (system : System) (s : Supervisor) (entry : CatalogEntry)
    → Bounded s
    → Issued s (launch_entry system s (ok entry))
start_entry-Issued system s entry inv = elim (Bool-cases (ltb (s.next_token + 1) (2 ^ 64))) [
  | inl fits ↦
      let token = inv.token in
      let nonzero : (s.next_token == 0) ≡ false = ground arith in
      let next = record s { next_token = s.next_token + 1 } in
      let running = reap_children system s.children in
      rw (fits, nonzero)
        (started-Issued system s next s.next_token running
          (spawned system next entry s.next_token running) (ground (arith, token, fits)) refl
          (omega arith) (omega (arith, length-reap_children system s.children, inv.children))
          (λ child h. spawned-room system next entry s.next_token child running h))
  | inr full ↦ rw full (record { bounded = inv; later = omega arith; fresh = λ x h. absurd cc })
]

launch_entry-Issued :
    (system : System) (s : Supervisor) (found : Result Failure CatalogEntry)
    → Bounded s
    → Issued s (launch_entry system s found)
launch_entry-Issued system s (err error) inv = record {
  bounded = inv;
  later = omega arith;
  fresh = λ x h. absurd cc;
}
launch_entry-Issued system s (ok entry) inv = start_entry-Issued system s entry inv

-- One call of `launch`, with what the system answers during it.
pub record Attempt : Type 0 where
  pub system : System
  pub application : ApplicationId
  pub policy : LaunchPolicy
  pub installed : Result Failure (List CatalogEntry)

abbrev pub attempt : Supervisor → Attempt → Result Failure Started × Supervisor
attempt s a = launch a.system s a.application a.policy a.installed

attempt-Issued : (s : Supervisor) (a : Attempt) → Bounded s → Issued s (attempt s a)
unfolding launch
attempt-Issued s a inv = launch_entry-Issued a.system s _ inv

abbrev pub onto_tokens : Result Failure Started → List LaunchToken → List LaunchToken
onto_tokens (err error) tokens = tokens
onto_tokens (ok x) tokens = x.token ∷ tokens

-- Launches one after another: the tokens handed out, and the supervisor at the end.
unfoldable pub launches : Supervisor → List Attempt → List LaunchToken × Supervisor
launches s [] = ([], s)
launches s (a ∷ rest) =
    let later = launches (attempt s a).1 rest in (onto_tokens (attempt s a).0 later.0, later.1)

-- Every number is below all that follow it, and none is below the first bound.
abbrev pub Rising : ℕ → List ℕ → Type 0
Rising bound [] = Unit
Rising bound (t ∷ rest) = (bound ≤ t) × Rising (t + 1) rest

Rising-lower : (low high : ℕ) (ts : List ℕ) → low ≤ high → Rising high ts → Rising low ts
Rising-lower low high [] le h = tt
Rising-lower low high (t ∷ ts) le h = (omega (arith, h.0), h.1)

onto_tokens-Rising :
    (s : Supervisor) (r : Result Failure Started × Supervisor) (ts : List ℕ)
    → Issued s r
    → Rising r.1.next_token ts
    → Rising s.next_token (onto_tokens r.0 ts)
onto_tokens-Rising s (err error, t) ts issued h =
    Rising-lower s.next_token t.next_token ts issued.later h
onto_tokens-Rising s (ok x, t) ts issued h =
    let (token, later) = issued.fresh x refl in
    (
      omega (arith, token),
      Rising-lower (x.token + 1) t.next_token ts (omega (arith, token, later)) h,
    )

-- Over any launches, whatever the system answers, at most 64 children are kept, and the tokens
-- handed out rise strictly from the first one on, so that no two are the same.
pub launches-Bounded :
    (s : Supervisor) (attempts : List Attempt)
    → Bounded s
    → Bounded (launches s attempts).1 × Rising s.next_token (launches s attempts).0
unfolding launches
launches-Bounded s [] inv = (inv, tt)
launches-Bounded s (a ∷ rest) inv =
    let issued = attempt-Issued s a inv in
    let (bounded, rising) = launches-Bounded (attempt s a).1 rest issued.bounded in
    (bounded, onto_tokens-Rising s (attempt s a) _ issued rising)
