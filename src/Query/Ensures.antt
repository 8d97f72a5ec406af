-- ===== src/Query/Ensures.antt =====
-- Runs of src/query.rs's matcher with a postcondition and an invariant of the state, and with what a
-- panic of the run gives away.
use weggli_enhance.Common.{◌≡◌, bytes_eq, Outcome, done, panic}
use weggli_enhance.Query.Engine.{Action, pure, attempt, ◌>>=◌}

-- A run with a postcondition, from states that meet the invariant, where a panic is a failure `Fail`.
module _ {S : Type 0} (Fail : Type 0) (Inv : S → Type 0) where
  abbrev pub Returns : {A : Type 0} → (A → Type 0) → Outcome (A × S) → Type 0
  Returns P (done p) = P p.0 × Inv p.1
  Returns P panic = Fail

  pub record Ensures {A : Type 0} (P : A → Type 0) (m : Action S A) : Type 0 where
    pub at_state : (s : S) → Inv s → Returns P (m s)

  pub pure-Ensures : {A : Type 0} (P : A → Type 0) (a : A) → P a → Ensures P (pure a)
  pure-Ensures P a h = record { at_state = λ s i. (h, i) }

  pub attempt-Ensures :
      {A : Type 0} (P : A → Type 0) {a : A} (o : Outcome A)
      → o ≡ done a
      → P a
      → Ensures P (attempt o)
  attempt-Ensures P o e h = rw e (pure-Ensures P _ h)

  bind-Returns :
      {A B : Type 0} (P : A → Type 0) (Q : B → Type 0) (x : Outcome (A × S)) (f : A → Action S B)
      → Returns P x
      → ((a : A) → P a → Ensures Q (f a))
      → Returns Q (elim x [ done (a, s) ↦ f a s | panic ↦ panic ])
  bind-Returns P Q (done (a, s)) f h k = (k a h.0).at_state s h.1
  bind-Returns P Q panic f h k = h

  pub bind-Ensures :
      {A B : Type 0} (P : A → Type 0) (Q : B → Type 0) (m : Action S A) (f : A → Action S B)
      → Ensures P m
      → ((a : A) → P a → Ensures Q (f a))
      → Ensures Q (m >>= f)
  bind-Ensures P Q m f h k = record {
    at_state = λ s i. bind-Returns P Q (m s) f (h.at_state s i) k;
  }
