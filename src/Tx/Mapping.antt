-- ===== src/Tx/Mapping.antt =====
-- The DMA mappings of the transmit path, read off the log, and the loop that makes them.
use onic_driver.Base.{
  ℕ, ◌+◌, ◌%◌, ◌^◌, ◌≡◌, ◌∙◌, refl, ap, sym, inl, inr, Bool, true, false, Bool-cases, ◌==◌,
  if◌then◌else◌, add32, List, [], ◌∷◌, ◌++◌, map, length, sum_of, arith,
}
use onic_driver.Base.Int.{ℤ, ne_zero}
use onic_driver.Kernel.{SwSg, QdmaRequest, Frag, Op, Event, Log, Env, World, called}
use onic_driver.Tx.{map_frags}
use mathlib.Core.List.{append-nil, append_assoc}

abbrev pub count_if : ℕ → ℕ → ℕ
count_if a b = if a == b then 1 else 0

-- An address counts as mapped when `dma_mapping_error` has found no error in it.
abbrev pub mapped_op : ℕ → Op → ℤ → ℕ
mapped_op a (Op.dma_mapping_error b) s = if ne_zero s then 0 else count_if b a
mapped_op a o s = 0

abbrev pub unmapped_op : ℕ → Op → ℕ
unmapped_op a (Op.dma_unmap_single b n) = count_if b a
unmapped_op a o = 0

-- The calls that give a mapping or a packet back.
abbrev pub gives_back_op : Op → ℕ
gives_back_op (Op.dma_unmap_single b n) = 1
gives_back_op (Op.dev_consume_skb_irq p) = 1
gives_back_op (Op.dev_kfree_skb_any p) = 1
gives_back_op o = 0

-- How often an address was mapped, and unmapped, and how much was given back.
abbrev pub mapped : ℕ → Log → ℕ
mapped a l = sum_of (λ (e : Event). mapped_op a e.op e.status) l

abbrev pub unmapped : ℕ → Log → ℕ
unmapped a l = sum_of (λ (e : Event). unmapped_op a e.op) l

abbrev pub gives_back : Log → ℕ
gives_back l = sum_of (λ (e : Event). gives_back_op e.op) l

-- How often the packet at `p` was consumed.
abbrev pub consumed_op : ℕ → Op → ℕ
consumed_op p (Op.dev_consume_skb_irq q) = count_if q p
consumed_op p o = 0

abbrev pub consumed : ℕ → Log → ℕ
consumed p l = sum_of (λ (e : Event). consumed_op p e.op) l

-- How often an address stands in a scatter-gather list.
abbrev pub occurs : ℕ → List SwSg → ℕ
occurs a sgl = sum_of (λ (s : SwSg). count_if s.dma_addr a) sgl

-- The private part and the counters are the same, and nothing has been given back.
pub record Keeps (w w' : World) : Type 0 where
  pub same_priv : w'.priv ≡ w.priv
  pub same_stats : w'.stats ≡ w.stats
  pub same_unmapped : (a : ℕ) → unmapped a w'.log ≡ unmapped a w.log
  pub same_back : gives_back w'.log ≡ gives_back w.log
  pub same_consumed : (p : ℕ) → consumed p w'.log ≡ consumed p w.log

-- The fragments are mapped: `new` describes them, in their order.
pub record MapsAll (frags : List Frag) (req req' : QdmaRequest) (w w' : World) : Type 0 where
  pub new : List SwSg
  pub sgl : req'.sgl ≡ req.sgl ++ new
  pub lens : map (λ (s : SwSg). s.len) new ≡ map (λ (f : Frag). f.size) frags
  pub count : req'.count % 2 ^ 32 ≡ (req.count + sum_of (λ (f : Frag). f.size) frags) % 2 ^ 32
  pub sgcnt : req'.sgcnt % 2 ^ 32 ≡ (req.sgcnt + length frags) % 2 ^ 32
  pub maps : (a : ℕ) → mapped a w'.log ≡ mapped a w.log + occurs a new

pub data MapEnds (frags : List Frag) (req : QdmaRequest) (w : World) (r : Bool × QdmaRequest)
    (w' : World) : Type 0 where
  all_mapped : r.0 ≡ false → MapsAll frags req r.1 w w' → Keeps w w' → MapEnds frags req w r w'
  map_failed : r.0 ≡ true → r.1.uld_data ≡ req.uld_data → Keeps w w' → MapEnds frags req w r w'

Keeps-trans : {u v w : World} → Keeps u v → Keeps v w → Keeps u w
Keeps-trans a b = record {
  same_priv = b.same_priv ∙ a.same_priv;
  same_stats = b.same_stats ∙ a.same_stats;
  same_unmapped = λ i. b.same_unmapped i ∙ a.same_unmapped i;
  same_back = b.same_back ∙ a.same_back;
  same_consumed = λ p. b.same_consumed p ∙ a.same_consumed p;
}

module _ (env : Env) where
  -- The world after a fragment's mapping was asked for and checked.
  abbrev tried : Frag → World → World
  tried f w =
      called (Op.dma_mapping_error (env.value w.log (Op.skb_frag_dma_map f))) env
        (called (Op.skb_frag_dma_map f) env w)

  tried-Keeps : (f : Frag) (w : World) → Keeps w (tried f w)
  tried-Keeps f w = record {
    same_priv = refl;
    same_stats = refl;
    same_unmapped = λ a. omega arith;
    same_back = omega arith;
    same_consumed = λ p. omega arith;
  }

  MapEnds-step :
      (f : Frag) (frags : List Frag) (req req' : QdmaRequest) (w : World) {r : Bool × QdmaRequest}
      {w' : World}
      → let s : SwSg = record {
        pg = 0;
        offset = 0;
        len = f.size;
        dma_addr = env.value w.log (Op.skb_frag_dma_map f);
      } in
        req' ≡ record req {
          count = add32 req.count f.size;
          sgl = req.sgl ++ s ∷ [];
          sgcnt = add32 req.sgcnt 1;
        }
        → ((a : ℕ) → mapped a (tried f w).log ≡ count_if s.dma_addr a + mapped a w.log)
        → MapEnds frags req' (tried f w) r w'
        → MapEnds (f ∷ frags) req w r w'
  MapEnds-step f frags req req' w e m (map_failed bad u k) =
      map_failed bad (u ∙ ap (λ (q : QdmaRequest). q.uld_data) e) (Keeps-trans (tried-Keeps f w) k)
  MapEnds-step f frags req req' w e m (all_mapped good a k) =
      let s : SwSg = record {
        pg = 0;
        offset = 0;
        len = f.size;
        dma_addr = env.value w.log (Op.skb_frag_dma_map f);
      } in
      all_mapped good
        (record {
          new = s ∷ a.new;
          sgl =
              a.sgl
              ∙ ap (λ (q : QdmaRequest). q.sgl ++ a.new) e
              ∙ append_assoc req.sgl (s ∷ []) a.new;
          lens = ap (λ (l : List ℕ). f.size ∷ l) a.lens;
          count = omega (arith, a.count, ap (λ (q : QdmaRequest). q.count) e);
          sgcnt = omega (arith, a.sgcnt, ap (λ (q : QdmaRequest). q.sgcnt) e);
          maps = λ i. omega (arith, a.maps i, m i);
        })
        (Keeps-trans (tried-Keeps f w) k)

  pub map_frags-MapEnds :
      (frags : List Frag) (req : QdmaRequest) (w : World)
      → MapEnds frags req w (map_frags frags req env w).0 (map_frags frags req env w).1
  unfolding map_frags
  map_frags-MapEnds [] req w =
      all_mapped refl
        (record {
          new = [];
          sgl = sym (append-nil req.sgl);
          lens = refl;
          count = omega arith;
          sgcnt = omega arith;
          maps = λ a. omega arith;
        })
        (record {
          same_priv = refl;
          same_stats = refl;
          same_unmapped = λ a. refl;
          same_back = refl;
          same_consumed = λ p. refl;
        })
  map_frags-MapEnds (f ∷ frags) req w =
      let dma_addr = env.value w.log (Op.skb_frag_dma_map f) in
      let asked = called (Op.skb_frag_dma_map f) env w in
      let s : SwSg = record { pg = 0; offset = 0; len = f.size; dma_addr = dma_addr } in
      elim (Bool-cases (ne_zero (env.status asked.log (Op.dma_mapping_error dma_addr)))) [
        | inl bad ↦ rw bad (map_failed refl refl (tried-Keeps f w))
        | inr good ↦ rw good (
            MapEnds-step f frags req _ w refl (λ a. rw good (omega arith))
              (map_frags-MapEnds frags
                (record req {
                  count = add32 req.count f.size;
                  sgl = req.sgl ++ s ∷ [];
                  sgcnt = add32 req.sgcnt 1;
                })
                (tried f w)))
      ]
