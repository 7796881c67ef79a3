-- ===== src/Jobs/Queue/Relink.antt =====
-- The two branches of `DelayNext` that write to the heap.
use cnc_masm.Prelude.{
  suc, ◌≡◌, refl, false, none, some, List, [], ◌∷◌, ◌++◌, arith, ap, ◌∙◌, ◌==◌, sym,
}
use cnc_masm.Jobs.Queue.{
  JobQueue, before_loop, Heap, ok, write, delay_two, delay_many, get_penultimate,
}
use cnc_masm.Jobs.Queue.Chain.{
  Cell, has, head_ptr, cell_entry, Chain, Holds, Chain-append, Chain-front, Chain-write, Chain-back,
  Distinct-apart, Distinct-back, head_ptr-append,
}
use cnc_masm.Jobs.Queue.Walk.{set_next-ok, Chain-relink, penultimate_loop-lem, before_loop-lem}
use cnc_masm.Jobs.Queue.Swap.{
  eq_false_sym, Distinct-swap, enough_rounds, Below-swap, length-swap, last_ptr-two, write_same,
  write_other, Distinct-front, ne_last, head_ptr-swap,
}

module _ {F J : Type 0} where
  abbrev pub Delays :
      (JobQueue F J → JobQueue F J → Type 0) → JobQueue F J → List (Cell F J) → Type 0
  Delays R q xs = (q' : JobQueue F J) × R q q' × Holds q' xs

  pub delay_two-swap :
      (q : JobQueue F J) (x y : Cell F J)
      → Holds q (x ∷ y ∷ [])
      → Delays (λ p p'. delay_two p ≡ ok p') q (y ∷ x ∷ [])
  unfolding delay_two
  delay_two-swap q x y h =
      let h₁ = write q.heap y.0 (cell_entry (some x.0) y.1 y.2) in
      let at_x : h₁ x.0 ≡ some (cell_entry (some y.0) x.1 x.2) = x_stays in
      (
        record q {
          first_entry = q.last_entry;
          last_entry = q.first_entry;
          heap = write h₁ x.0 (cell_entry none x.1 x.2);
        },
        rw (h.first, h.last)
            (rw (set_next-ok q.heap y.0 (cell_entry none y.1 y.2) (some x.0) h.chain.1.0)
              (rw (set_next-ok h₁ x.0 (cell_entry (some y.0) x.1 x.2) none at_x) refl)),
        record {
          first = h.last;
          last = h.first;
          chain = chain_after;
          distinct = Distinct-swap [] x y h.distinct;
          below = Below-swap q.fresh [] x y h.below;
          room = h.room;
        },
      )
    where
      x_stays :
          write q.heap y.0 (cell_entry (some x.0) y.1 y.2) x.0
          ≡ some (cell_entry (some y.0) x.1 x.2)
      x_stays = unfold write in ground (arith, h.chain.0, h.distinct.0)

      chain_after :
          Chain
            (write (write q.heap y.0 (cell_entry (some x.0) y.1 y.2)) x.0 (cell_entry none x.1 x.2))
            (y ∷ x ∷ [])
            none
      chain_after = unfold write in ground (arith, h.chain, h.distinct.0)

module _ {F J : Type 0} (q : JobQueue F J) (ws : List (Cell F J)) (z x y : Cell F J)
    (h : Holds q ((ws ++ z ∷ []) ++ x ∷ y ∷ [])) where
  abbrev vs : List (Cell F J)
  vs = ws ++ z ∷ []

  -- The heap after each of the three writes of `DelayNext`.
  abbrev heap₁ : Heap F J
  heap₁ = write q.heap x.0 (cell_entry none x.1 x.2)

  abbrev heap₂ : Heap F J
  heap₂ = write heap₁ z.0 (cell_entry (some y.0) z.1 z.2)

  abbrev heap₃ : Heap F J
  heap₃ = write heap₂ y.0 (cell_entry (some x.0) y.1 y.2)

  old : Chain q.heap (x ∷ y ∷ []) none
  old = Chain-back q.heap vs (x ∷ y ∷ []) none h.chain

  no_x : has x.0 vs ≡ false
  no_x = Distinct-apart vs (x ∷ y ∷ []) x.0 h.distinct (ground arith)

  no_y : has y.0 vs ≡ false
  no_y = Distinct-apart vs (x ∷ y ∷ []) y.0 h.distinct (ground arith)

  no_z : has z.0 ws ≡ false
  no_z = Distinct-apart ws (z ∷ []) z.0 (Distinct-front vs (x ∷ y ∷ []) h.distinct) (ground arith)

  x_ne_y : (x.0 == y.0) ≡ false
  x_ne_y = ne_last x.0 [] y (Distinct-back vs (x ∷ y ∷ []) h.distinct).0

  chain₁ : Chain heap₁ vs (some x.0)
  chain₁ =
      Chain-write q.heap x.0 (cell_entry none x.1 x.2) vs (some x.0) no_x
        (Chain-front q.heap vs (x ∷ y ∷ []) none h.chain)

  chain₃ : Chain heap₃ vs (some y.0)
  chain₃ =
      Chain-write heap₂ y.0 (cell_entry (some x.0) y.1 y.2) vs (some y.0) no_y
        (Chain-relink heap₁ ws z (some x.0) (some y.0) no_z chain₁)

  at_z : Chain heap₁ (z ∷ []) (some x.0)
  at_z = Chain-back heap₁ ws (z ∷ []) (some x.0) chain₁

  at_y : heap₂ y.0 ≡ some (cell_entry none y.1 y.2)
  at_y =
      write_other heap₁ z.0 y.0 (cell_entry (some y.0) z.1 z.2) (ne_last y.0 ws z no_y)
      ∙ write_other q.heap x.0 y.0 (cell_entry none x.1 x.2) (eq_false_sym x.0 y.0 x_ne_y)
      ∙ old.1.0

  at_x : heap₃ x.0 ≡ some (cell_entry none x.1 x.2)
  at_x =
      write_other heap₂ y.0 x.0 (cell_entry (some x.0) y.1 y.2) x_ne_y
      ∙ write_other heap₁ z.0 x.0 (cell_entry (some y.0) z.1 z.2) (ne_last x.0 ws z no_x)
      ∙ write_same q.heap x.0 (cell_entry none x.1 x.2)

  before :
      before_loop heap₁ (suc q.fresh) (some x.0) (head_ptr (vs ++ x ∷ y ∷ []) none) ≡ ok (some z.0)
  before =
      ap (before_loop heap₁ (suc q.fresh) (some x.0)) (head_ptr-append vs (x ∷ y ∷ []) none)
      ∙ before_loop-lem heap₁ (suc q.fresh) x.0 ws z chain₁ no_x
          (enough_rounds ws z x y q.fresh h.room).1

  delay_many_runs : delay_many q ≡ ok (record q { last_entry = some x.0; heap = heap₃ })
  unfolding delay_many get_penultimate
  delay_many_runs =
      let found =
        penultimate_loop-lem q.heap (suc q.fresh) none vs x y h.chain
          (enough_rounds ws z x y q.fresh h.room).0 in
      rw (h.first, h.last ∙ last_ptr-two vs x y)
        (rw found (
          rw (set_next-ok q.heap x.0 (cell_entry (some y.0) x.1 x.2) none old.0) (
            rw before (
              rw (set_next-ok heap₁ z.0 (cell_entry (some x.0) z.1 z.2) (some y.0) at_z.0)
                (rw (set_next-ok heap₂ y.0 (cell_entry none y.1 y.2) (some x.0) at_y) refl)))))

  pub delay_many-swap : Delays (λ p p'. delay_many p ≡ ok p') q ((ws ++ z ∷ []) ++ y ∷ x ∷ [])
  delay_many-swap = (
    record q { last_entry = some x.0; heap = heap₃ },
    delay_many_runs,
    record {
      first = h.first ∙ head_ptr-swap ws z x y;
      last = sym (last_ptr-two vs y x);
      chain =
          Chain-append heap₃ vs (y ∷ x ∷ []) none chain₃
            (write_same heap₂ y.0 (cell_entry (some x.0) y.1 y.2), (at_x, tt));
      distinct = Distinct-swap vs x y h.distinct;
      below = Below-swap q.fresh vs x y h.below;
      room = omega (arith, h.room, length-swap vs x y);
    },
  )
