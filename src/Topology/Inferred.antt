-- ===== src/Topology/Inferred.antt =====
-- What `infer_parallel_topology` gives for the two orders that the program uses itself.
use mathlib.Core.Path.{subst}
use native.Mathlib.Nat.{mul-mod_right, mod-add-div}
use cluster_manager_das.Prelude.{
  ℕ, ◌*◌, ◌/◌, ◌%◌, ◌≤◌, ◌<◌, Bool, true, false, not, ◌&&◌, none, ◌≡◌, refl, ap, ◌∙◌, ◌⊎◌, inl, inr,
  arith, nat_eq, ltb, Bool-cases,
}
use cluster_manager_das.Prelude.Exec.{ok, err, value_error}
use cluster_manager_das.Topology.Place.{mul_mono}
use cluster_manager_das.Topology.Layout.{
  ParallelTopology, Layout, new_generator, and_then, topology_of, dp_of, resolve_parallel_order,
  given_or, infer_parallel_topology,
}
use cluster_manager_das.Topology.Generated.{
  IsTopology, default_generator, default-IsTopology, mapped_generator, mapped-IsTopology,
}

mul_pos : (a b : ℕ) → 1 ≤ a → 1 ≤ b → 1 ≤ a * b
mul_pos a b h k = grind (arith, h, k)

module _ (tp ep dp pp cp : ℕ)
    (positive : (1 ≤ tp) × (1 ≤ cp) × (1 ≤ ep) × (1 ≤ dp) × (1 ≤ pp)) where
  -- Without an order the generator is that of one of the two orders of the program.
  generated :
      (use_mapping : Bool)
      → (not (nat_eq ep 1) && not (nat_eq cp 1)) ≡ false
      → (t : ParallelTopology) × (and_then
            (new_generator tp ep dp pp cp (resolve_parallel_order none use_mapping))
            (topology_of tp)
          ≡ ok t)
        × IsTopology (tp * dp * pp * cp * ep) pp tp dp t
  unfolding resolve_parallel_order
  generated true e =
      let (t, run, is) = mapped-IsTopology tp ep dp pp cp positive in
      (t, rw (mapped_generator tp ep dp pp cp e) run, is)
  generated false e =
      let (t, run, is) = default-IsTopology tp ep dp pp cp positive in
      (t, rw (default_generator tp ep dp pp cp e) run, is)

  -- The tests of `infer_parallel_topology` on a number of ranks that is the product.
  tests_pass :
      (world : ℕ)
      → tp * pp * dp * cp * ep ≡ world
      → (ltb world 1 ≡ false)
        × (nat_eq (pp * tp) 0 ≡ false)
        × (not (nat_eq (world % (pp * tp)) 0) ≡ false)
        × (not (nat_eq (tp * pp * dp * cp * ep) world) ≡ false)
  tests_pass world e =
      let (t, c, x, d, p) = positive in
      let a = mul_pos pp tp p t in
      let b = mul_pos (dp * cp) ep (mul_pos dp cp d c) x in
      let split : pp * tp * (dp * cp * ep) ≡ world = grind (arith, e) in
      let divides : world % (pp * tp) ≡ 0 = rw (← split) (mul-mod_right (pp * tp) (dp * cp * ep)) in
      let some_ranks : 1 ≤ world = rw (← split) (mul_pos (pp * tp) (dp * cp * ep) a b) in
      (ground (arith, some_ranks), ground (arith, a), ground (arith, divides), ground (arith, e))

-- For positive sizes whose product is the number of ranks, where the expert or the context dimension
-- has one rank and no order is given, the topology is inferred, with or without the other mapping: the
-- groups of each dimension share out the ranks.
pub infer_parallel_topology_shares :
    (world dp : ℕ) (l : Layout)
    → (1 ≤ l.tp_size) × (1 ≤ l.cp_size) × (1 ≤ l.ep_size) × (1 ≤ dp) × (1 ≤ l.pp_size)
    → l.tp_size * l.pp_size * dp * l.cp_size * l.ep_size ≡ world
    → (l.ep_size ≡ 1) ⊎ (l.cp_size ≡ 1)
    → dp_of world l ≡ dp
    → l.order ≡ none
    → (t : ParallelTopology) × (infer_parallel_topology world l ≡ ok t)
      × IsTopology world l.pp_size l.tp_size dp t
unfolding infer_parallel_topology
infer_parallel_topology_shares world dp l positive e one same plain =
    let alone : (not (nat_eq l.ep_size 1) && not (nat_eq l.cp_size 1)) ≡ false = elim one [
      | inl a ↦ ground (arith, a)
      | inr a ↦ ground (arith, a)
    ] in
    let (a, b, c, d) = tests_pass l.tp_size l.ep_size dp l.pp_size l.cp_size positive world e in
    let (t, run, is) =
      generated l.tp_size l.ep_size dp l.pp_size l.cp_size positive l.use_tp_pp_dp_mapping alone in
    let resolved = ap (λ o. resolve_parallel_order o l.use_tp_pp_dp_mapping) plain in
    let counted : l.tp_size * dp * l.pp_size * l.cp_size * l.ep_size ≡ world = grind (arith, e) in
    (
      t,
      rw (same, a, b, c, d, resolved) run,
      subst (λ n. IsTopology n l.pp_size l.tp_size dp t) counted is,
    )

regrouped : (pp tp q cp ep : ℕ) → tp * pp * q * cp * ep ≡ pp * tp * q * (cp * ep)
regrouped pp tp q cp ep = grind arith

-- More ranks than there are: the product with the default size of the data dimension.
too_many :
    (world pp tp cp ep : ℕ)
    → 1 ≤ world
    → 2 ≤ cp * ep
    → 1 ≤ pp * tp
    → world % (pp * tp) ≡ 0
    → not (nat_eq (tp * pp * (world / (pp * tp)) * cp * ep) world) ≡ true
too_many world pp tp cp ep some_ranks many some_size e =
    let whole : pp * tp * (world / (pp * tp)) ≡ world =
      omega (arith, mod-add-div world (pp * tp), e) in
    let product = regrouped pp tp (world / (pp * tp)) cp ep ∙ ap (λ n. n * (cp * ep)) whole in
    let more : world < world * (cp * ep) =
      omega (arith, mul_mono world 2 (cp * ep) many, some_ranks) in
    ground (arith, product, more)

-- Without a size of the data dimension, an inference with more than one rank in the context or the
-- expert dimension is refused whatever the number of ranks, for sizes of the other dimensions that are
-- not zero: the default leaves those two dimensions out.
pub infer_parallel_topology_refuses :
    (world : ℕ) (l : Layout)
    → l.dp_size ≡ none
    → 1 ≤ l.pp_size * l.tp_size
    → 2 ≤ l.cp_size * l.ep_size
    → infer_parallel_topology world l ≡ err value_error
unfolding infer_parallel_topology
infer_parallel_topology_refuses world l absent some_size many =
    let sized : nat_eq (l.pp_size * l.tp_size) 0 ≡ false = ground (arith, some_size) in
    let default_dp : dp_of world l ≡ world / (l.pp_size * l.tp_size) =
      (unfold dp_of in ap (given_or (world / (l.pp_size * l.tp_size))) absent) in
    elim (Bool-cases (ltb world 1)) [
      | inl a ↦ rw a refl
      | inr a ↦ elim (Bool-cases (not (nat_eq (world % (l.pp_size * l.tp_size)) 0))) [
        | inl c ↦ rw (a, sized, c) refl
        | inr c ↦
            let wrong =
              too_many world l.pp_size l.tp_size l.cp_size l.ep_size (ground (arith, a)) many
                some_size (ground (arith, c)) in
            rw (default_dp, a, sized, c, wrong) refl
      ]
    ]
