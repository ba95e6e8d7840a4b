-- ===== src/Verify/Cfg/Dfs/Keeps.antt =====
-- Each round of the search keeps its invariant.
use astronomy.Prelude.{
  ℕ, zero, suc, ◌+◌, ◌-◌, ◌<◌, ◌≤◌, ◌≡◌, ◌↔◌, ◌⊎◌, refl, sym, ap, ◌∙◌, subst, Bool, true, false,
  ◌&&◌, not, List, [], ◌∷◌, ◌++◌, length, arith, ltb, ltb→lt, Bool-cases, inl, inr, append_assoc,
}
use mathlib.Core.Logic.{⊎_elim}
use mathlib.Core.List.{Memᴰ}
use mathlib.Core.List.Memᴰ
use astronomy.Prelude.Arrays.{at_or, write, filled, length-filled, at_or-filled, length-write}
use astronomy.Prelude.Orders.{
  Precedes, Distinct, Memᴰ-insert, Precedes-insert, Precedes-inserted, Distinct-insert, Memᴰ-at_or,
  at_or-Memᴰ,
}
use astronomy.Ir.Functions.{BlockId}
use astronomy.Verify.Cfg.{Search, targets, marked, enter, visit, start}
use astronomy.Verify.Cfg.Dfs.{Edge, Walk, entry, along, blocks_of, order, IsLooked, IsSearch}

lt-length_of_marked : (xs : List Bool) (v : ℕ) → at_or false xs v ≡ true → v < length xs
lt-length_of_marked [] v h = cc
lt-length_of_marked (x ∷ xs) zero h = omega arith
lt-length_of_marked (x ∷ xs) (suc v) h = omega (arith, lt-length_of_marked xs v h)

-- Writing a mark marks one block.
marked-write :
    (xs : List Bool) (t v : ℕ)
    → t < length xs
    → (at_or false (write t true xs) v ≡ true) ↔ ((v ≡ t) ⊎ (at_or false xs v ≡ true))
marked-write [] t v h = absurd (omega arith)
marked-write (x ∷ xs) zero zero h = (λ _. inl refl, λ _. refl)
marked-write (x ∷ xs) zero (suc v) h = (inr, ⊎_elim (λ e. absurd (omega arith)) (λ m. m))
marked-write (x ∷ xs) (suc t) zero h = (inr, ⊎_elim (λ e. absurd (omega arith)) (λ m. m))
marked-write (x ∷ xs) (suc t) (suc v) h = ground (arith, marked-write xs t v (omega arith))

-- A block whose successors were all looked at has none that is not marked.
looked_all :
    (succs : List (List BlockId)) (s : Search) (b k w : ℕ)
    → IsLooked succs s b k
    → length (targets succs b) ≤ k
    → Edge succs b w
    → marked s w ≡ true
looked_all succs s b k w looked seen (m, fits) =
    let ss = targets succs b in
    let (i, lt, e) = Memᴰ-at_or 0 w ss m in
    let j = length ss - 1 - i in
    let back : length ss - 1 - j ≡ i = omega arith in
    let is_w : at_or 0 ss (length ss - 1 - j) ≡ w = ap (at_or 0 ss) back ∙ e in
    subst (λ x. marked s x ≡ true) is_w
      (looked j (omega arith) (omega arith) (subst (λ x. x < length succs) (sym is_w) fits))

module _ (succs : List (List BlockId)) (s : Search) (b k : ℕ) (rest : List (BlockId × ℕ))
    (top : s.stack ≡ (b, k) ∷ rest) (h : IsSearch succs s) where
  on_top : (c n : ℕ) → Memᴰ (c, n) ((b, k) ∷ rest) → IsLooked succs s c n
  on_top c n m = h.looked c n (subst (λ l. Memᴰ (c, n) l) (sym top) m)

  order_top : order s ≡ s.post ++ (b ∷ blocks_of rest)
  order_top = ap (λ l. s.post ++ blocks_of l) top

  -- Leaving a block whose successors were all looked at.
  leave-IsSearch :
      length (targets succs b) ≤ k
      → IsSearch succs (record s { post = s.post ++ (b ∷ []); stack = rest })
  leave-IsSearch seen =
      let same : (s.post ++ (b ∷ [])) ++ blocks_of rest ≡ order s =
        append_assoc s.post (b ∷ []) (blocks_of rest) ∙ sym order_top in
      record {
        size = h.size;
        root = h.root;
        listed = λ v. subst (λ l. (marked s v ≡ true) ↔ Memᴰ v l) (sym same) (h.listed v);
        distinct = subst Distinct (sym same) h.distinct;
        sound = h.sound;
        closed = λ v w m e.
            ⊎_elim (λ old. h.closed v w old e)
              (λ last.
                looked_all succs s b k w (on_top b k (Memᴰ.head refl)) seen
                  (subst (λ x. Edge succs x w) (Memᴰ.eq_of_singleton last) e))
              (Memᴰ.append_cases s.post m);
        looked = λ c n m. on_top c n (Memᴰ.tail m);
        parent = λ v m other.
            let (u, e, p) = h.parent v m other in (u, e, subst (Precedes v u) (sym same) p);
      }

  abbrev next_target : BlockId
  next_target = at_or 0 (targets succs b) (length (targets succs b) - 1 - k)

  one_more :
      (t : Search)
      → ((v : BlockId) → marked s v ≡ true → marked t v ≡ true)
      → (next_target < length succs → marked t next_target ≡ true)
      → IsLooked succs t b (k + 1)
  one_more t grows new j lt fits range = elim (Bool-cases (ltb j k)) [
    | inl before ↦ grows _ (on_top b k (Memᴰ.head refl) j (ltb→lt j k before) fits range)
    | inr last ↦
        let here : j ≡ k = ground arith in
        let at = λ (i : ℕ). at_or 0 (targets succs b) (length (targets succs b) - 1 - i) in
        subst (λ i. marked t (at i) ≡ true) (sym here)
          (new (subst (λ i. at i < length succs) here range))
  ]

  -- One more successor of `b` was looked at, and is marked in `t` if it is in range.
  advance-IsLooked :
      (t : Search)
      → ((v : BlockId) → marked s v ≡ true → marked t v ≡ true)
      → (next_target < length succs → marked t next_target ≡ true)
      → (c n : ℕ) → Memᴰ (c, n) ((b, k + 1) ∷ rest)
      → IsLooked succs t c n
  advance-IsLooked t grows new c n m =
      ⊎_elim (λ e. subst (λ p. IsLooked succs t p.0 p.1) (sym e) (one_more t grows new))
        (λ m' j lt fits range. grows _ (on_top c n (Memᴰ.tail m') j lt fits range))
        (Memᴰ.cases_cons m)

  -- Passing a successor that is out of range or known.
  pass-IsSearch :
      (next_target < length succs → marked s next_target ≡ true)
      → IsSearch succs (record s { stack = (b, k + 1) ∷ rest })
  pass-IsSearch known = record {
    size = h.size;
    root = h.root;
    listed = λ v. subst (λ l. (marked s v ≡ true) ↔ Memᴰ v l) order_top (h.listed v);
    distinct = subst Distinct order_top h.distinct;
    sound = h.sound;
    closed = h.closed;
    looked = advance-IsLooked (record s { stack = (b, k + 1) ∷ rest }) (λ v m. m) known;
    parent =
        λ v m other. let (u, e, p) = h.parent v m other in (u, e, subst (Precedes v u) order_top p);
  }

  -- Entering a new successor.
  enter-IsSearch :
      k < length (targets succs b)
      → next_target < length succs
      → ¬ (marked s next_target ≡ true)
      → IsSearch succs (record s {
        reachable = write next_target true s.reachable;
        stack = (next_target, 0) ∷ (b, k + 1) ∷ rest;
      })
  enter-IsSearch more range fresh =
      let t = next_target in
      let after : Search = record s {
        reachable = write t true s.reachable;
        stack = (t, 0) ∷ (b, k + 1) ∷ rest;
      } in
      let one = λ (v : BlockId). marked-write s.reachable t v (rw h.size range) in
      let grows = λ (v : BlockId) (m : marked s v ≡ true). (one v).1 (inr m) in
      let edge : Edge succs b t = (at_or-Memᴰ 0 (targets succs b) _ (omega arith), range) in
      let behind = blocks_of rest in
      let b_marked : marked s b ≡ true =
        (h.listed b).1
          (subst (Memᴰ b) (sym order_top) (Memᴰ.append_right s.post (Memᴰ.head refl))) in
      let listed_before =
        λ (v : BlockId). subst (λ l. (marked s v ≡ true) ↔ Memᴰ v l) order_top (h.listed v) in
      record {
        size = length-write t true s.reachable ∙ h.size;
        root = grows 0 h.root;
        listed = λ v. (
          λ m.
              (Memᴰ-insert v t s.post (b ∷ behind)).1
                (⊎_elim inl (λ o. inr ((listed_before v).0 o)) ((one v).0 m)),
          λ m. (one v).1 (
              ⊎_elim inl (λ o. inr ((listed_before v).1 o))
                ((Memᴰ-insert v t s.post (b ∷ behind)).0 m)),
        );
        distinct =
            Distinct-insert t s.post (b ∷ behind) (λ m. fresh ((listed_before t).1 m))
              (subst Distinct order_top h.distinct);
        sound = λ v m.
            ⊎_elim (λ e. subst (Walk succs) (sym e) (along (h.sound b b_marked) edge)) (h.sound v)
              ((one v).0 m);
        closed = λ v w m e. grows w (h.closed v w m e);
        looked = λ c n m.
            ⊎_elim (λ e j lt fits far. absurd (omega (arith, ap (λ p. p.1) e)))
              (advance-IsLooked after grows (λ _. (one t).1 (inl refl)) c n) (Memᴰ.cases_cons m);
        parent = λ v m other.
            ⊎_elim
              (λ e. (
                b,
                subst (Edge succs b) (sym e) edge,
                subst (λ x. Precedes x b (s.post ++ (t ∷ b ∷ behind))) (sym e)
                    (Precedes-inserted b t s.post (b ∷ behind) (Memᴰ.head refl)),
              ))
              (λ old.
                let (u, e, p) = h.parent v old other in
                (
                  u,
                  e,
                  Precedes-insert v u t s.post (b ∷ behind) (subst (Precedes v u) order_top p),
                ))
              ((one v).0 m);
      }

-- One round of the loop.
pub visit-IsSearch :
    (succs : List (List BlockId)) (s : Search) (b k : ℕ) (rest : List (BlockId × ℕ))
    → s.stack ≡ (b, k) ∷ rest
    → IsSearch succs s
    → IsSearch succs (visit succs b k rest s)
unfolding visit enter
visit-IsSearch succs s b k rest top h =
    let ss = targets succs b in
    let t = at_or 0 ss (length ss - 1 - k) in
    elim (Bool-cases (ltb k (length ss))) [
      | inr done ↦ rw done (leave-IsSearch succs s b k rest top h (ground arith))
      | inl more ↦ elim (Bool-cases (ltb t (length succs) && not (marked s t))) [
        | inl new ↦
            rw (more, new)
              (enter-IsSearch succs s b k rest top h (ltb→lt k (length ss) more) (ground arith)
                (ground arith))
        | inr old ↦ rw (more, old) (pass-IsSearch succs s b k rest top h (ground arith))
      ]
    ]

pub start-IsSearch : (succs : List (List BlockId)) → 0 < length succs → IsSearch succs (start succs)
unfolding start
start-IsSearch succs body =
    let blank = filled (length succs) false in
    let one =
      λ (v : BlockId). marked-write blank 0 v (rw (length-filled (length succs) false) body) in
    let only = λ (v : BlockId) (m : marked (start succs) v ≡ true).
      ⊎_elim (λ e. e)
        (λ old.
          absurd (let q : false ≡ true = sym (at_or-filled (length succs) false v) ∙ old in cc))
        ((one v).0 m) in
    record {
      size = length-write 0 true blank ∙ length-filled (length succs) false;
      root = (one 0).1 (inl refl);
      listed = λ v. (λ m. Memᴰ.head (only v m), λ m. (one v).1 (inl (Memᴰ.eq_of_singleton m)));
      distinct = (Memᴰ.not-nil, tt);
      sound = λ v m. subst (Walk succs) (sym (only v m)) entry;
      closed = λ v w m. absurd (Memᴰ.not-nil m);
      looked =
          λ b k m j lt. absurd (let e = Memᴰ.eq_of_singleton m in omega (arith, ap (λ p. p.1) e));
      parent = λ v m other. absurd (other (only v m));
    }
