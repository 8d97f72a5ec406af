-- ===== src/Cluster/Quiet.antt =====
-- examples/cluster.c: the identity of this node, the epochs, and the votes that it has sent, which
-- the operations on nodes, slots and reports are compared by.
pub mod Nodes
pub mod Slots
pub mod Gossips
pub mod Links
pub mod Claims
pub mod Elections
use weggli_enhance.Common.{
  ℕ, ◌+◌, ◌≡◌, refl, sym, ap, ◌∙◌, Bool, true, false, not, ◌&&◌, ◌||◌, List, [], ◌∷◌, ◌++◌, Option,
  none, some, nat_beq, if◌then◌else◌, Outcome, done, panic, ◌>>=◌, Bool-cases,
}
use weggli_enhance.Text.{Bytes}
use weggli_enhance.Cluster.State.{Node, Cluster, Event, sent_failover_auth, emit, put_node, write}
use weggli_enhance.Cluster.Reports.{
  Settings, add_failure_report, node_remove_slave, del_failure_report,
}
use weggli_enhance.Cluster.Nodes.{free_link}

-- The epochs of the votes, in the order in which they were sent.
unfoldable pub sent_votes : List Event → List ℕ
sent_votes [] = []
sent_votes (e ∷ es) =
    let rest = sent_votes es in elim e [ sent_failover_auth p n ↦ n ∷ rest | other ↦ rest ]

-- This node, its epochs and its votes.
pub record Frame : Type 0 where
  pub myself : ℕ
  pub current_epoch : ℕ
  pub last_vote_epoch : ℕ
  pub votes : List ℕ

unfoldable pub frame : Cluster → Frame
frame c = record {
  myself = c.myself;
  current_epoch = c.current_epoch;
  last_vote_epoch = c.last_vote_epoch;
  votes = sent_votes c.events;
}

pub if-same {ℓ κ} :
    {A : Type ℓ} {B : Type κ} (f : A → B) (b : Bool) (x y : A) (v : B)
    → f x ≡ v
    → f y ≡ v
    → f (if b then x else y) ≡ v
if-same f true x y v p q = p
if-same f false x y v p q = q

abbrev pub fields : Cluster → ℕ × ℕ × ℕ × List Event
fields c = (c.myself, c.current_epoch, c.last_vote_epoch, c.events)

-- A write of other fields.
pub frame-record : (a b : Cluster) → fields a ≡ fields b → frame a ≡ frame b
unfolding frame
frame-record a b e =
    ap
      (λ (m, n, l, es). record {
        myself = m;
        current_epoch = n;
        last_vote_epoch = l;
        votes = sent_votes es;
      })
      e

pub frame-emit : (e : Event) (c : Cluster) → sent_votes (e ∷ []) ≡ [] → frame (emit e c) ≡ frame c
unfolding frame sent_votes
frame-emit e c quiet =
    ap
      (λ vs. record {
        myself = c.myself;
        current_epoch = c.current_epoch;
        last_vote_epoch = c.last_vote_epoch;
        votes = vs;
      })
      (go c.events)
  where
    go : (es : List Event) → sent_votes (es ++ e ∷ []) ≡ sent_votes es
    go [] = quiet
    go (sent_failover_auth p n ∷ es) = ap (λ vs. n ∷ vs) (go es)
    go (d ∷ es) = go es

-- What holds of the value of a run that does not panic.
abbrev pub Ends {ℓ κ} : {A : Type ℓ} → (A → Type κ) → Outcome A → Type κ
Ends Q (done a) = Q a
Ends Q panic = Unit

pub Ends-bind {ℓ κ ι μ} :
    {A : Type ℓ} {B : Type κ} (P : A → Type ι) (Q : B → Type μ) (o : Outcome A) (k : A → Outcome B)
    → Ends P o
    → ((a : A) → P a → Ends Q (k a))
    → Ends Q (o >>= k)
Ends-bind P Q (done a) k p q = q a p
Ends-bind P Q panic k p q = tt

pub Ends-if {ℓ κ} :
    {A : Type ℓ} (Q : A → Type κ) (b : Bool) (x y : Outcome A)
    → Ends Q x
    → Ends Q y
    → Ends Q (if b then x else y)
Ends-if Q true x y p q = p
Ends-if Q false x y p q = q

-- A run that ends with the frame of `c`.
abbrev pub Quietly : Cluster → Outcome Cluster → Type 0
Quietly c = Ends λ c'. frame c' ≡ frame c

-- A run from a cluster with the frame of `c`.
pub Quietly-from :
    (c1 c : Cluster) (o : Outcome Cluster) → frame c1 ≡ frame c → Quietly c1 o → Quietly c o
Quietly-from c1 c (done a) e q = q ∙ e
Quietly-from c1 c panic e q = tt

-- A run after a quiet one.
pub Quietly-bind {ℓ} :
    {A : Type ℓ} (f : A → Cluster) (c : Cluster) (o : Outcome A) (k : A → Outcome Cluster)
    → Ends (λ a. frame (f a) ≡ frame c) o
    → ((a : A) → Quietly (f a) (k a))
    → Quietly c (o >>= k)
Quietly-bind f c (done a) k p q = Quietly-from (f a) c (k a) p (q a)
Quietly-bind f c panic k p q = tt
