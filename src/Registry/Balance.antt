-- ===== src/Registry/Balance.antt =====
-- Which server `EnsureActivation` of virtual/registry/kv_registry.go picks for a new activation.
use nola.Base.{
  ◌≡◌, sym, ap, subst, ◌∙◌, ℕ, ◌≤◌, String, some, Bool, true, false, List, [], ◌∷◌, ok, Bytes,
  arith, ltb, All, Elem, inl, inr, from_bind, ok-injective, if◌then◌else◌, Bool-cases,
}
use nola.Registry.State.{Deps, ServerState, server_key, servers_prefix}
use nola.Registry.Servers.{read_server}
use nola.Registry.Activation.{
  is_live, insert_by_load, sort_by_load, first, collect_live, pick_server,
}
use nola.Registry.Records.{read_server-bytes}
use nola.Registry.Keys.{has_prefix-server_key}

abbrev pub load : ServerState → ℕ
load s = s.heartbeat_state.num_activated_actors

module _ (P : ServerState → Type 0) where
  All-insert_by_load :
      (x : ServerState) (l : List ServerState) → P x → All P l → All P (insert_by_load x l)
  unfolding insert_by_load
  All-insert_by_load x [] p a = (p, tt)
  All-insert_by_load x (y ∷ l) p a = elim (Bool-cases (ltb (load y) (load x))) [
    | inl h ↦ rw h (a.0, All-insert_by_load x l p a.1)
    | inr h ↦ rw h (p, a)
  ]

  All-of_insert :
      (x : ServerState) (l : List ServerState) → All P (insert_by_load x l) → P x × All P l
  unfolding insert_by_load
  All-of_insert x [] a = (a.0, tt)
  All-of_insert x (y ∷ l) a = elim (Bool-cases (ltb (load y) (load x))) [
    | inl h ↦
        let both : P y × All P (insert_by_load x l) =
          subst (λ b. All P (if b then y ∷ insert_by_load x l else x ∷ y ∷ l)) h a in
        let (p, rest) = All-of_insert x l both.1 in (p, (both.0, rest))
    | inr h ↦ subst (λ b. All P (if b then y ∷ insert_by_load x l else x ∷ y ∷ l)) h a
  ]

  All-sort_by_load : (l : List ServerState) → All P l → All P (sort_by_load l)
  unfolding sort_by_load
  All-sort_by_load [] a = tt
  All-sort_by_load (x ∷ l) a = All-insert_by_load x (sort_by_load l) a.0 (All-sort_by_load l a.1)

  All-of_sort : (l : List ServerState) → All P (sort_by_load l) → All P l
  unfolding sort_by_load
  All-of_sort [] a = tt
  All-of_sort (x ∷ l) a =
      let (p, rest) = All-of_insert x (sort_by_load l) a in (p, All-of_sort l rest)

abbrev Sorted : List ServerState → Type 0
Sorted [] = Unit
Sorted (x ∷ l) = All (λ y. load x ≤ load y) l × Sorted l

All-le :
    (x y : ServerState) (l : List ServerState)
    → load x ≤ load y
    → All (λ z. load y ≤ load z) l
    → All (λ z. load x ≤ load z) l
All-le x y [] h a = tt
All-le x y (z ∷ l) h a = (omega arith, All-le x y l h a.1)

insert_by_load-Sorted :
    (x : ServerState) (l : List ServerState) → Sorted l → Sorted (insert_by_load x l)
unfolding insert_by_load
insert_by_load-Sorted x [] s = (tt, tt)
insert_by_load-Sorted x (y ∷ l) s = elim (Bool-cases (ltb (load y) (load x))) [
  | inl h ↦ rw h (All-insert_by_load _ x l (ground arith) s.0, insert_by_load-Sorted x l s.1)
  | inr h ↦ rw h ((ground arith, All-le x y l (ground arith) s.0), s)
]

sort_by_load-Sorted : (l : List ServerState) → Sorted (sort_by_load l)
unfolding sort_by_load
sort_by_load-Sorted [] = tt
sort_by_load-Sorted (x ∷ l) = insert_by_load-Sorted x (sort_by_load l) (sort_by_load-Sorted l)

first_least :
    (l : List ServerState) (x : ServerState)
    → Sorted l
    → first l ≡ ok x
    → All (λ y. load x ≤ load y) l
unfolding first
first_least [] x s h = tt
first_least (y ∷ l) x s h =
    subst (λ z. All (λ w. load z ≤ load w) (y ∷ l)) (ok-injective h) (omega arith, s.0)

first-All :
    (P : ServerState → Type 0) (l : List ServerState) (x : ServerState)
    → first l ≡ ok x
    → All P l
    → P x
unfolding first
first-All P [] x h a = absurd (ground arith)
first-All P (y ∷ l) x h a = subst P (ok-injective h) a.0

All-Elem_state :
    (P : ServerState → Type 0) (x : ServerState) (l : List ServerState) → All P l → Elem x l → P x
All-Elem_state P x [] a m = absurd m
All-Elem_state P x (y ∷ l) a (inl e) = subst P (sym e) a.0
All-Elem_state P x (y ∷ l) a (inr m) = All-Elem_state P x l a.1 m

module _ (d : Deps) (vs : ℕ) where
  collect_live-All :
      (l : List (Bytes × Bytes)) (r : List ServerState)
      → collect_live d vs l ≡ ok r
      → All (λ s. is_live vs s ≡ ok true) r
  unfolding collect_live
  collect_live-All [] r h = subst (All _) (ok-injective h) tt
  collect_live-All (e ∷ l) r h = from_bind _ _ h λ server e0 h1. from_bind _ _ h1 λ live e1 h2.
      from_bind _ _ h2 λ rest e2 h3.
        subst (All _) (ok-injective h3) (keep server live rest e1 (collect_live-All l rest e2))
    where
      keep :
          (server : ServerState) (live : Bool) (rest : List ServerState)
          → is_live vs server ≡ ok live
          → All (λ s. is_live vs s ≡ ok true) rest
          → All (λ s. is_live vs s ≡ ok true) (if live then server ∷ rest else rest)
      keep server true rest e a = (e, a)
      keep server false rest e a = a

  collect_live-Elem :
      (l : List (Bytes × Bytes)) (r : List ServerState) (k b : Bytes) (server : ServerState)
      → collect_live d vs l ≡ ok r
      → Elem (k, b) l
      → d.server_codec.unmarshal b ≡ ok server
      → is_live vs server ≡ ok true
      → Elem server r
  unfolding collect_live
  collect_live-Elem [] r k b server h m u live = absurd m
  collect_live-Elem (e ∷ l) r k b server h (inl here) u live = from_bind _ _ h λ server' e0 h1.
      from_bind _ _ h1 λ live' e1 h2. from_bind _ _ h2 λ rest e2 h3.
        let same : server ≡ server' =
          ok-injective
            (sym u ∙ ap (λ (x : Bytes × Bytes). d.server_codec.unmarshal x.1) here ∙ e0) in
        let yes' : live' ≡ true = ok-injective (sym e1 ∙ ap (is_live vs) (sym same) ∙ live) in
        subst (Elem server) (ok-injective h3)
          (subst (λ b. Elem server (if b then server' ∷ rest else rest)) (sym yes') (inl same))
  collect_live-Elem (e ∷ l) r k b server h (inr m) u live = from_bind _ _ h λ server' e0 h1.
      from_bind _ _ h1 λ live' e1 h2. from_bind _ _ h2 λ rest e2 h3.
        subst (Elem server) (ok-injective h3)
          (behind server' live' rest (collect_live-Elem l rest k b server e2 m u live))
    where
      behind :
          (server' : ServerState) (live' : Bool) (rest : List ServerState)
          → Elem server rest
          → Elem server (if live' then server' ∷ rest else rest)
      behind server' true rest m = inr m
      behind server' false rest m = m

-- The server of a new activation is live, and no live server that has a record has fewer activated
-- actors.
pub pick_server_least :
    (d : Deps) (vs : ℕ) (s : d.kv.State) (picked : ServerState) (server_id : String)
    (other : ServerState)
    → pick_server d vs s ≡ ok picked
    → read_server d s server_id ≡ ok (some other)
    → is_live vs other ≡ ok true
    → (is_live vs picked ≡ ok true) × (load picked ≤ load other)
unfolding pick_server
pick_server_least d vs s picked server_id other h known live = from_bind _ _ h λ pairs visited h1.
    from_bind _ _ h1 λ found collected h2.
      let (b, stored, decodes) = read_server-bytes d s server_id other known in
      let meets =
        d.kv.get-iter s (servers_prefix d) pairs (server_key d server_id) b visited stored
          (has_prefix-server_key d server_id) in
      let found_it =
        collect_live-Elem d vs pairs found (server_key d server_id) b other collected meets decodes
          live in
      let all_live = All-sort_by_load _ found (collect_live-All d vs pairs found collected) in
      let least = first_least (sort_by_load found) picked (sort_by_load-Sorted found) h2 in
      (
        first-All _ (sort_by_load found) picked h2 all_live,
        All-Elem_state _ other found (All-of_sort _ found least) found_it,
      )
