-- ===== src/Query/Agreement.antt =====
-- When a run of the matcher of src/query.rs over its cache agrees with a run that has none: the cache
-- holds, for each id and node, the matches of the sub query with that id on that node.
use weggli_enhance.Common.{
  ℕ, zero, suc, ◌≡◌, refl, sym, ◌∙◌, ap, subst, Bool, true, false, List, [], ◌∷◌, Option, none,
  some, Outcome, done, panic, lift, unwrap, lookup, insert, lookup-insert_eq, lookup-insert_ne,
  Bool-cases, Option-cases, inl, inr,
}
use weggli_enhance.Text.{Bytes}
use weggli_enhance.Result.{QueryResult, merge_results}
use weggli_enhance.Query.Tree.{Capture, QueryTree}
use weggli_enhance.Query.Engine.{
  TreeSitter, QueryMatch, Action, pure, attempt, ◌>>=◌, SubMatcher, find_sub, run_subqueries,
  process_match, scan, nothing_yet, own_result,
}
use weggli_enhance.Query.Match.{
  Cache, pair_eq, pair_beq, pair_beq_iff, cached, direct, collect, match_internal, extend_at,
}

-- The result of an action without its state.
abbrev pub forget : {A S : Type 0} → Outcome (A × S) → Outcome A
forget o = lift (λ p. p.0) o

module _ (ts : TreeSitter) (source : Bytes) where
  open ts use {Pattern, Regex, Node, node_id, query_matches, pattern_count}

  -- The matches of a tree when every sub query runs anew.
  abbrev pub uncached : QueryTree Pattern Regex → Node → Outcome (List QueryResult)
  uncached t n = forget (match_internal ts source (Unit {0}) direct t n tt)

  module _ (injective : (m n : Node) → node_id m ≡ node_id n → m ≡ n)
      (spec : ℕ → Node → Outcome (List QueryResult)) where
    -- Every entry of the cache holds the matches that `spec` gives for its key.
    abbrev pub IsSound : Cache → Type 0
    IsSound cache =
        (q : ℕ) (n : Node) (v : List QueryResult)
        → lookup (q, node_id n) cache ≡ some v
        → spec q n ≡ done v

    abbrev pub Agree : {A : Type 0} → Outcome (A × Cache) → Outcome (A × Unit {0}) → Type 0
    Agree (done p) (done q) = (p.0 ≡ q.0) × IsSound p.1
    Agree panic panic = Unit
    Agree _ _ = ⊥

    pub record Agrees {A : Type 0} (m : Action Cache A) (p : Action (Unit {0}) A) : Type 0 where
      pub at_sound : (cache : Cache) → IsSound cache → Agree (m cache) (p tt)

    bind-Agree :
        {A B : Type 0} (x : Outcome (A × Cache)) (y : Outcome (A × Unit {0}))
        (f : A → Action Cache B) (g : A → Action (Unit {0}) B)
        → Agree x y
        → ((a : A) → Agrees (f a) (g a))
        → Agree
            (elim x [ done (a, s) ↦ f a s | panic ↦ panic ])
            (elim y [ done (a, s) ↦ g a s | panic ↦ panic ])
    bind-Agree (done (a, c)) (done (b, u)) f g h k =
        subst (λ z. Agree (f a c) (g z tt)) h.0 ((k a).at_sound c h.1)
    bind-Agree panic panic f g h k = tt
    bind-Agree (done p) panic f g h k = absurd h
    bind-Agree panic (done q) f g h k = absurd h

    pub bind-Agrees :
        {A B : Type 0} (m : Action Cache A) (p : Action (Unit {0}) A) (f : A → Action Cache B)
        (g : A → Action (Unit {0}) B)
        → Agrees m p
        → ((a : A) → Agrees (f a) (g a))
        → Agrees (m >>= f) (p >>= g)
    bind-Agrees m p f g h k = record {
      at_sound = λ cache sound. bind-Agree (m cache) (p tt) f g (h.at_sound cache sound) k;
    }

    pub pure-Agrees : {A : Type 0} (a : A) → Agrees (pure a) (pure a)
    pure-Agrees a = record { at_sound = λ cache sound. (refl, sound) }

    pub attempt-Agrees : {A : Type 0} (o : Outcome A) → Agrees (attempt o) (attempt o)
    attempt-Agrees (done a) = pure-Agrees a
    attempt-Agrees panic = record { at_sound = λ cache sound. tt }

    pub branch-Agrees :
        {A : Type 0} (b : Bool) (x y : Action Cache A) (x' y' : Action (Unit {0}) A)
        → Agrees x x'
        → Agrees y y'
        → Agrees (elim b [ true ↦ x | false ↦ y ]) (elim b [ true ↦ x' | false ↦ y' ])
    branch-Agrees true x y x' y' h k = h
    branch-Agrees false x y x' y' h k = k

    insert-IsSound :
        (cache : Cache) (q : ℕ) (n : Node) (v : List QueryResult)
        → IsSound cache
        → spec q n ≡ done v
        → IsSound (insert (q, node_id n) v cache)
    insert-IsSound cache q n v sound right = λ q' n' w found.
        elim (Bool-cases (pair_beq (q, node_id n) (q', node_id n'))) [
          | inl same ↦
              let keys = (pair_beq_iff (q, node_id n) (q', node_id n')).0 same in
              let e : q ≡ q' = ap (λ k. k.0) keys in
              let en : n ≡ n' = injective n n' (ap (λ k. k.1) keys) in
              let ev : some v ≡ some w =
                sym (lookup-insert_eq (q, node_id n) (q', node_id n') v cache same) ∙ found in
              cc
          | inr other ↦
              sound q' n' w
                (sym (lookup-insert_ne (q, node_id n) (q', node_id n') v cache other) ∙ found)
        ]

    Agree-forget :
        (v : List QueryResult) (cache : Cache) (y : Outcome (List QueryResult × Unit {0}))
        → IsSound cache
        → forget y ≡ done v
        → Agree (done (v, cache)) y
    Agree-forget v cache (done (a, u)) sound e = (cc, sound)
    Agree-forget v cache panic sound e = cc

    store-Agree :
        (q : ℕ) (n : Node) (x : Outcome (List QueryResult × Cache))
        (y : Outcome (List QueryResult × Unit {0}))
        → Agree x y
        → forget y ≡ spec q n
        → Agree
            (elim x [ panic ↦ panic | done (v, cache') ↦ done (v, insert (q, node_id n) v cache') ])
            y
    store-Agree q n (done (a, c)) (done (b, u)) h right =
        (h.0, insert-IsSound c q n a h.1 (sym right ∙ ap done (sym h.0)))
    store-Agree q n panic panic h right = tt
    store-Agree q n (done p) panic h right = absurd h
    store-Agree q n panic (done p) h right = absurd h

    -- A look-up in a sound cache stands for a run of the sub query.
    cached-Agrees :
        (q : ℕ) (n : Node) (m : Action Cache (List QueryResult))
        (p : Action (Unit {0}) (List QueryResult))
        → Agrees m p
        → forget (p tt) ≡ spec q n
        → Agrees (cached q (node_id n) m) (direct q (node_id n) p)
    unfolding cached direct
    cached-Agrees q n m p h right = record {
      at_sound = λ cache sound. elim (Option-cases (lookup (q, node_id n) cache)) [
        | inl miss ↦
            rw (miss, cached) (store-Agree q n (m cache) (p tt) (h.at_sound cache sound) right)
        | inr (v, hit) ↦
            rw (hit, cached) (Agree-forget v cache (p tt) sound (right ∙ sound q n v hit))
      ];
    }

    -- The two instances of a sub query's matcher, and what `spec` says of it.
    abbrev pub SubAgrees :
        Option (SubMatcher ts source Cache) → Option (SubMatcher ts source (Unit {0})) → Type 0
    SubAgrees none none = Unit
    SubAgrees (some s) (some t) =
        (s.id ≡ t.id)
        × ((n : Node) → Agrees (s.run n) (t.run n))
        × ((n : Node) → forget (t.run n tt) ≡ spec s.id n)
    SubAgrees _ _ = ⊥

    abbrev pub SubsAgree :
        List (Option (SubMatcher ts source Cache))
        → List (Option (SubMatcher ts source (Unit {0})))
        → Type 0
    SubsAgree [] [] = Unit
    SubsAgree (s ∷ ss) (t ∷ ts') = SubAgrees s t × SubsAgree ss ts'
    SubsAgree _ _ = ⊥

    find_sub-SubAgrees :
        (ss : List (Option (SubMatcher ts source Cache)))
        (us : List (Option (SubMatcher ts source (Unit {0})))) (i : ℕ)
        → SubsAgree ss us
        → SubAgrees (find_sub ts source Cache ss i) (find_sub ts source (Unit {0}) us i)
    unfolding find_sub
    find_sub-SubAgrees [] [] i h = tt
    find_sub-SubAgrees (s ∷ ss) (u ∷ us) zero h = h.0
    find_sub-SubAgrees (s ∷ ss) (u ∷ us) (suc i) h = find_sub-SubAgrees ss us i h.1
    find_sub-SubAgrees [] (u ∷ us) i h = absurd h
    find_sub-SubAgrees (s ∷ ss) [] i h = absurd h

    with_sub-Agrees :
        (o : Option (SubMatcher ts source Cache)) (o' : Option (SubMatcher ts source (Unit {0})))
        (n : Node) (f : List QueryResult → Action Cache (List QueryResult))
        (g : List QueryResult → Action (Unit {0}) (List QueryResult))
        → SubAgrees o o'
        → ((a : List QueryResult) → Agrees (f a) (g a))
        → Agrees
            (attempt (unwrap o) >>= λ t. (cached t.id (node_id n) (t.run n) >>= f))
            (attempt (unwrap o') >>= λ t. (direct t.id (node_id n) (t.run n) >>= g))
    unfolding direct
    with_sub-Agrees none none n f g h k = record { at_sound = λ cache sound. tt }
    with_sub-Agrees (some s) (some t) n f g h k =
        bind-Agrees (cached s.id (node_id n) (s.run n)) (t.run n) f g
          (cached-Agrees s.id n (s.run n) (t.run n) (h.1 n) (h.2 n)) k
    with_sub-Agrees none (some t) n f g h k = absurd h
    with_sub-Agrees (some s) none n f g h k = absurd h

    module _ (ss : List (Option (SubMatcher ts source Cache)))
        (us : List (Option (SubMatcher ts source (Unit {0})))) (subs : SubsAgree ss us) where
      run_subqueries-Agrees :
          (qs : List (ℕ × Node)) (results : List QueryResult)
          → Agrees
              (run_subqueries ts source Cache cached ss qs results)
              (run_subqueries ts source (Unit {0}) direct us qs results)
      unfolding run_subqueries
      run_subqueries-Agrees [] results = pure-Agrees results
      run_subqueries-Agrees (q ∷ qs) [] = run_subqueries-Agrees qs []
      run_subqueries-Agrees ((index, node) ∷ qs) (r ∷ rs) =
          with_sub-Agrees _ _ node _ _ (find_sub-SubAgrees ss us index subs) λ sub_results.
            bind-Agrees _ _ _ _ (attempt-Agrees (merge_results (r ∷ rs) sub_results source false))
              λ results. run_subqueries-Agrees qs results

      process_match-Agrees :
          (id : ℕ) (cs : List (Capture Pattern Regex)) (m : QueryMatch Node)
          → Agrees
              (process_match ts source Cache cached id cs ss m)
              (process_match ts source (Unit {0}) direct id cs us m)
      unfolding process_match
      process_match-Agrees id cs m =
          bind-Agrees _ _ _ _
            (attempt-Agrees (scan ts source id cs m.captures (nothing_yet ts source)))
            (elim [
              | none ↦ pure-Agrees []
              | some p ↦ run_subqueries-Agrees p.subqueries (own_result ts source p ∷ [])
            ])

      pub collect-Agrees :
          (id : ℕ) (cs : List (Capture Pattern Regex)) (ms : List (QueryMatch Node))
          (prs : List (List QueryResult))
          → Agrees
              (collect ts source Cache cached id cs ss ms prs)
              (collect ts source (Unit {0}) direct id cs us ms prs)
      unfolding collect
      collect-Agrees id cs [] prs = pure-Agrees prs
      collect-Agrees id cs (m ∷ ms) prs = bind-Agrees _ _ _ _ (process_match-Agrees id cs m) λ rs.
          bind-Agrees _ _ _ _ (attempt-Agrees (extend_at m.pattern_index rs prs))
            λ prs'. collect-Agrees id cs ms prs'
