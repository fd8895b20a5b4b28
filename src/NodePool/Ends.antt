-- ===== src/NodePool/Ends.antt =====
-- `yf_hnpool_alloc` comes to an end: the rounds that it is given are enough.
use yifei.Prelude.{
  ℕ, zero, suc, ◌+◌, ◌-◌, ◌*◌, ◌%◌, ◌^◌, ◌≤◌, ◌<◌, ◌≡◌, ◌≢◌, arith, Bool, true, false, not, ◌&&◌,
  Option, none, some, List, ltb, ltb→lt, ◌==◌, ==→eq, ==→ne, if◌then◌else◌, Bool-cases, inl, inr,
}
use native.Mathlib.Nat.{mod-eq_of_lt}
use yifei.Core.{Checked, returned, assert_failed}
use yifei.IdSeed.{Shared}
use yifei.NodePool.{NodePool, get_id_by_node, init_node_pool}
use yifei.NodePool.Chunks.{HnPool, add_chunk, init_child_pool}
use yifei.NodePool.Growth.{
  unfinished, Next, with_id, from_chunk, grown, grow, at_last, alloc_round, alloc_rounds,
  hnpool_alloc, ordered, info_pool,
}

-- The chunk that the pool stands at is one of those in use, and their number fits its field.
pub record InChunks (hp : HnPool) : Type 0 where
  pub here : hp.alloc_chunk < hp.used_chunk
  pub room : hp.used_chunk ≤ hp.max_chunk
  pub few : hp.max_chunk < 2 ^ 8

-- The rounds that are left: one for each chunk ahead, and before the sort as many again.
abbrev pub rounds_left : HnPool → Bool → ℕ
rounds_left hp sorted = hp.max_chunk - hp.alloc_chunk + (if sorted then 0 else hp.max_chunk + 1)

with_id-ends :
    (chunk node : ℕ) (shared : Shared) (hp : HnPool) (c : Checked ℕ)
    → with_id chunk node shared hp c ≢ unfinished
unfolding with_id
with_id-ends chunk node shared hp (returned id) e = cc e
with_id-ends chunk node shared hp assert_failed e = cc e

from_chunk-ends :
    (hp : HnPool) (chunk : ℕ) (c : Checked (Option ℕ × Shared × NodePool))
    → from_chunk hp chunk c ≢ unfinished
unfolding from_chunk
from_chunk-ends hp chunk (returned (some node, shared, pool)) e =
    with_id-ends chunk node shared _ (get_id_by_node pool node) e
from_chunk-ends hp chunk (returned (none, shared, pool)) e = cc e
from_chunk-ends hp chunk assert_failed e = cc e

-- A round may go on only with fewer rounds left.
abbrev pub GoesOn : Next → ℕ → Type 0
GoesOn next n =
    (shared : Shared) (hp : HnPool) (sorted : Bool) (memory : ℕ)
    → InChunks hp
    → rounds_left hp sorted ≤ n
    → next shared hp sorted memory ≢ unfinished

grown-ends :
    (next : Next) (n memory : ℕ) (hp : HnPool) (c : Checked (Shared × NodePool))
    → GoesOn next n
    → InChunks hp
    → hp.alloc_chunk + 1 ≡ hp.used_chunk
    → hp.used_chunk < hp.max_chunk
    → hp.max_chunk - hp.alloc_chunk ≤ suc n
    → grown next memory (add_chunk hp c) ≢ unfinished
unfolding grown add_chunk
grown-ends next n memory hp (returned (shared, pool)) goes i last more h =
    let fits : (hp.used_chunk + 1) % 2 ^ 8 ≡ hp.used_chunk + 1 =
      mod-eq_of_lt (omega (arith, i.few)) in
    let fits' : (hp.alloc_chunk + 1) % 2 ^ 8 ≡ hp.alloc_chunk + 1 =
      mod-eq_of_lt (omega (arith, i.few)) in
    goes shared _ true memory
      (record { here = omega (arith, fits, fits'); room = omega (arith, fits); few = i.few })
      (omega (arith, fits'))
grown-ends next n memory hp assert_failed goes i last more h = λ e. cc e

grow-ends :
    (now : ℕ) (next : Next) (n memory : ℕ) (shared : Shared) (hp : HnPool)
    → GoesOn next n
    → InChunks hp
    → hp.alloc_chunk + 1 ≡ hp.used_chunk
    → hp.used_chunk < hp.max_chunk
    → hp.max_chunk - hp.alloc_chunk ≤ suc n
    → grow now next shared hp memory ≢ unfinished
unfolding grow init_child_pool
grow-ends now next n zero shared hp goes i last more h = λ e. cc e
grow-ends now next n (suc memory) shared hp goes i last more h =
    grown-ends next n memory hp (init_node_pool now shared _) goes i last more h

module _ (sort : (ℕ → ℕ) → List ℕ → List ℕ) (now : ℕ) where
  at_last-ends :
      (next : Next) (n : ℕ) (shared : Shared) (hp : HnPool) (sorted : Bool) (memory : ℕ)
      → GoesOn next n
      → InChunks hp
      → hp.alloc_chunk + 1 ≡ hp.used_chunk
      → rounds_left hp sorted ≤ suc n
      → at_last sort now next shared hp sorted memory ≢ unfinished
  unfolding at_last
  at_last-ends next n shared hp sorted memory goes i last h =
      let infos = if sorted then hp.node_pool_infos else ordered sort hp in
      let hp' = record hp { node_pool_infos = infos } in
      let more_rounds : hp.max_chunk - hp.alloc_chunk ≤ suc n = at_most sorted h in
      elim (Bool-cases (not sorted && not ((info_pool hp infos 0).free_size == 0))) [
        | inl again ↦ rw again (
            goes shared _ true memory
              (record { here = omega (arith, i.here); room = i.room; few = i.few })
              (unsorted sorted _ again h))
        | inr on ↦ rw on (elim (Bool-cases (ltb hp.used_chunk hp.max_chunk)) [
          | inl more ↦ rw more (
              grow-ends now next n memory shared hp' goes
                (record { here = i.here; room = i.room; few = i.few }) last (ltb→lt _ _ more)
                more_rounds)
          | inr full ↦ rw full (λ e. cc e)
        ])
      ]
    where
      at_most : (b : Bool) → rounds_left hp b ≤ suc n → hp.max_chunk - hp.alloc_chunk ≤ suc n
      at_most b p = omega (arith, p)

      unsorted :
          (b c : Bool) → (not b && c) ≡ true → rounds_left hp b ≤ suc n → hp.max_chunk - 0 + 0 ≤ n
      unsorted true c e p = absurd (cc e)
      unsorted false c e p = omega (arith, p, i.here, i.room)

  alloc_rounds-ends : (fuel : ℕ) → GoesOn (alloc_rounds sort fuel now) fuel
  unfolding alloc_rounds alloc_round
  alloc_rounds-ends zero shared hp sorted memory i h = absurd (omega (arith, i.here, i.room))
  alloc_rounds-ends (suc fuel) shared hp sorted memory i h =
      elim (Bool-cases (not ((info_pool hp hp.node_pool_infos hp.alloc_chunk).free_size == 0))) [
        | inl free ↦ rw free (from_chunk-ends hp _ _)
        | inr none_free ↦ rw none_free (elim (Bool-cases ((hp.alloc_chunk + 1) == hp.used_chunk)) [
          | inl last ↦ rw last (
              at_last-ends (alloc_rounds sort fuel now) fuel shared hp sorted memory
                (alloc_rounds-ends fuel) i (==→eq _ _ last) h)
          | inr before ↦
              let fits : (hp.alloc_chunk + 1) % 2 ^ 8 ≡ hp.alloc_chunk + 1 =
                mod-eq_of_lt (omega (arith, i.here, i.room, i.few)) in
              rw before (
                alloc_rounds-ends fuel shared _ sorted memory
                  (record {
                    here = omega (arith, fits, i.here, ==→ne _ _ before);
                    room = i.room;
                    few = i.few;
                  })
                  (omega (arith, fits, i.here, i.room)))
        ])
      ]

  -- For every order that the sort gives the chunks, a pool that stands at one of its chunks in
  -- use, of which there are at most as many as it may have and fewer than 256 of these,
  -- `yf_hnpool_alloc` ends: twice the greatest number of chunks and two rounds of its loop are
  -- enough, with and without memory for more chunks.
  pub hnpool_alloc-ends :
      (shared : Shared) (hp : HnPool) (memory : ℕ)
      → InChunks hp
      → hnpool_alloc sort now shared hp memory ≢ unfinished
  unfolding hnpool_alloc
  hnpool_alloc-ends shared hp memory i =
      alloc_rounds-ends (2 * hp.max_chunk + 2) shared hp false memory i (omega arith)
