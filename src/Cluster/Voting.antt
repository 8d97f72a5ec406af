-- ===== src/Cluster/Voting.antt =====
-- examples/cluster.c: the votes of this node in the elections of slaves. `Voting/Epochs` has the
-- operations that raise the epoch, and `Voting/Packets` the packets.
pub mod Epochs
pub mod Packets
pub mod Steps
use weggli_enhance.Common.{
  ℕ, ◌+◌, ◌*◌, ◌%◌, ◌^◌, ◌<◌, ◌≤◌, ◌≡◌, ◌≢◌, refl, sym, ap, subst, ◌∙◌, Bool, true, false, not,
  ◌&&◌, ◌||◌, List, [], ◌∷◌, ◌++◌, Option, none, some, nat_beq, nat_beq_iff, ltb, leb,
  if◌then◌else◌, arith, Outcome, done, panic, ◌>>=◌, Bool-cases, Option-cases, ◌⊎◌, inl, inr,
}
use weggli_enhance.Text.{Bytes}
use weggli_enhance.Cluster.State.{
  Node, Cluster, Event, sent_failover_auth, put_node, write, emit, node_is_master, node_is_slave,
  node_failed,
}
use weggli_enhance.Cluster.Reports.{Settings}
use weggli_enhance.Cluster.Table.{all_slots}
use weggli_enhance.Cluster.Votes.{
  AuthRequest, is_served_newer, send_failover_auth, grant_vote, may_vote,
  send_failover_auth_if_needed,
}
use weggli_enhance.Cluster.Quiet.{Frame, frame, sent_votes}

-- How often an epoch is in a list.
unfoldable pub count_of : ℕ → List ℕ → ℕ
count_of e [] = 0
count_of e (n ∷ ns) = if nat_beq e n then count_of e ns + 1 else count_of e ns

-- No two votes were sent in one epoch, and none in an epoch after the last one noted, which is not
-- after the current epoch.
pub record VotesOnce (c : Cluster) : Type 0 where
  pub once : (e : ℕ) → count_of e (sent_votes c.events) ≤ 1
  pub past : (e : ℕ) → c.last_vote_epoch < e → count_of e (sent_votes c.events) ≡ 0
  pub last : c.last_vote_epoch ≤ c.current_epoch

-- The epoch may have grown, and no vote was sent.
pub record Raises (c c' : Cluster) : Type 0 where
  pub current : c.current_epoch ≤ c'.current_epoch
  pub last : c'.last_vote_epoch ≡ c.last_vote_epoch
  pub votes : sent_votes c'.events ≡ sent_votes c.events

pub current_epoch-frame : (c c' : Cluster) → frame c' ≡ frame c → c'.current_epoch ≡ c.current_epoch
unfolding frame
current_epoch-frame c c' e = ap (λ (f : Frame). f.current_epoch) e

pub Raises-frame : (c c' : Cluster) → frame c' ≡ frame c → Raises c c'
unfolding frame
Raises-frame c c' e = record {
  current = omega (arith, current_epoch-frame c c' e);
  last = ap (λ (f : Frame). f.last_vote_epoch) e;
  votes = ap (λ (f : Frame). f.votes) e;
}

pub Raises-trans : (a b c : Cluster) → Raises a b → Raises b c → Raises a c
Raises-trans a b c h k = record {
  current = omega (arith, h.current, k.current);
  last = k.last ∙ h.last;
  votes = k.votes ∙ h.votes;
}

pub Raises-VotesOnce : (c c' : Cluster) → Raises c c' → VotesOnce c → VotesOnce c'
Raises-VotesOnce c c' r h = record {
  once = λ e. rw r.votes (h.once e);
  past = λ e lt. rw r.votes (h.past e (rw r.last at lt));
  last = omega (arith, r.last, r.current, h.last);
}

count_of-append :
    (e n : ℕ) (ns : List ℕ) → count_of e (ns ++ n ∷ []) ≡ count_of e ns + count_of e (n ∷ [])
unfolding count_of
count_of-append e n [] = omega arith
count_of-append e n (m ∷ ns) = elim (Bool-cases (nat_beq e m)) [
  | inl same ↦ rw same (omega (arith, count_of-append e n ns))
  | inr other ↦ rw other (count_of-append e n ns)
]

sent_votes-append :
    (p n : ℕ) (es : List Event)
    → sent_votes (es ++ sent_failover_auth p n ∷ []) ≡ sent_votes es ++ n ∷ []
unfolding sent_votes
sent_votes-append p n [] = refl
sent_votes-append p n (sent_failover_auth q m ∷ es) = ap (λ vs. m ∷ vs) (sent_votes-append p n es)
sent_votes-append p n (d ∷ es) = sent_votes-append p n es

-- A vote that is sent is the only one of the current epoch.
emit-VotesOnce :
    (p e : ℕ) (c : Cluster)
    → c.last_vote_epoch ≢ c.current_epoch
    → VotesOnce c
    → count_of e (sent_votes (c.events ++ sent_failover_auth p c.current_epoch ∷ [])) ≤ 1
      × (c.current_epoch < e
          → count_of e (sent_votes (c.events ++ sent_failover_auth p c.current_epoch ∷ [])) ≡ 0)
unfolding count_of
emit-VotesOnce p e c fresh h =
    let vs = sent_votes c.events in
    let appended : count_of e (sent_votes (c.events ++ sent_failover_auth p c.current_epoch ∷ []))
        ≡ count_of e vs + count_of e (c.current_epoch ∷ []) =
      ap (count_of e) (sent_votes-append p c.current_epoch c.events)
      ∙ count_of-append e c.current_epoch vs in
    rw appended (elim (Bool-cases (nat_beq e c.current_epoch)) [
      | inl same ↦ rw same (
          let none_yet : count_of e vs ≡ 0 = h.past e (ground (arith, same, fresh, h.last)) in
          (omega (arith, none_yet), λ lt. absurd (ground (arith, same, lt))))
      | inr other ↦ rw other (
          let b = h.once e in
          (
            omega (arith, b),
            λ lt.
                let none_yet : count_of e vs ≡ 0 = h.past e (omega (arith, lt, h.last)) in
                omega (arith, none_yet),
          ))
    ])

send_failover_auth-VotesOnce :
    (p e : ℕ) (c : Cluster)
    → c.last_vote_epoch ≢ c.current_epoch
    → VotesOnce c
    → ((send_failover_auth p c).current_epoch ≡ c.current_epoch)
      × (count_of e (sent_votes (send_failover_auth p c).events) ≤ 1)
      × (c.current_epoch < e → count_of e (sent_votes (send_failover_auth p c).events) ≡ 0)
unfolding send_failover_auth
send_failover_auth-VotesOnce p e c fresh h = elim (Option-cases (c.heap p).link) [
  | inl absent ↦
      rw (absent, send_failover_auth) (refl, h.once e, λ lt. h.past e (omega (arith, lt, h.last)))
  | inr (l, found) ↦
      (let (few, none_yet) = emit-VotesOnce p e c fresh h in
        rw (found, send_failover_auth) (refl, few, none_yet))
]

grant_vote-VotesOnce :
    (now p m : ℕ) (c : Cluster)
    → c.last_vote_epoch ≢ c.current_epoch
    → VotesOnce c
    → VotesOnce (grant_vote now p m c)
unfolding grant_vote
grant_vote-VotesOnce now p m c fresh h =
    let same = (send_failover_auth-VotesOnce p 0 c fresh h).0 in
    record {
      once = λ e. (send_failover_auth-VotesOnce p e c fresh h).1;
      past = λ e lt. (send_failover_auth-VotesOnce p e c fresh h).2 (omega (arith, same, lt));
      last = omega arith;
    }

-- A vote is only sent in an epoch without one.
may_vote-fresh :
    (req : AuthRequest) (c : Cluster) → may_vote req c ≡ true → c.last_vote_epoch ≢ c.current_epoch
unfolding may_vote
may_vote-fresh req c e same =
    differ (not (node_is_slave (c.heap c.myself) || nat_beq (c.heap c.myself).numslots 0))
      (not (ltb req.current_epoch c.current_epoch)) c.last_vote_epoch c.current_epoch e same
  where
    differ : (a b : Bool) (x y : ℕ) → a && b && not (nat_beq x y) ≡ true → x ≢ y
    differ a b x y h = ground (arith, h)

-- The answer to a request keeps the promise, whatever the request says.
pub send_failover_auth_if_needed-VotesOnce :
    (st : Settings) (now p : ℕ) (req : AuthRequest) (c : Cluster)
    → VotesOnce c
    → VotesOnce (send_failover_auth_if_needed st now p req c)
unfolding send_failover_auth_if_needed
send_failover_auth_if_needed-VotesOnce st now p req c h = elim (Bool-cases (may_vote req c)) [
  | inr e ↦ rw (e, send_failover_auth_if_needed) h
  | inl e ↦ elim (Option-cases (c.heap p).slaveof) [
    | inl f ↦ rw (e, send_failover_auth_if_needed) (rw f h)
    | inr (m, f) ↦
        let denied =
          node_is_master (c.heap p)
          || not (node_failed (c.heap m)) && not req.force_ack
          || ltb now ((c.heap m).voted_time + st.cluster_node_timeout * 2)
          || is_served_newer req c all_slots in
        elim (Bool-cases denied) [
          | inl g ↦ rw (e, send_failover_auth_if_needed) (rw f (rw g h))
          | inr g ↦
              rw (e, send_failover_auth_if_needed)
                (rw f (rw g (grant_vote-VotesOnce now p m c (may_vote-fresh req c e) h)))
        ]
  ]
]
