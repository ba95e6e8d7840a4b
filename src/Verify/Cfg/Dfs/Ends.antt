-- ===== src/Verify/Cfg/Dfs/Ends.antt =====
-- The search ends within the rounds it is given, and has then marked what control can reach.
use astronomy.Prelude.{
  ℕ, zero, suc, ◌+◌, ◌-◌, ◌<◌, ◌≤◌, ◌≡◌, ◌≢◌, ◌↔◌, ◌⊎◌, refl, sym, ap, ◌∙◌, subst, Bool, true,
  false, ◌&&◌, not, List, [], ◌∷◌, ◌++◌, some, length, arith, ltb, ltb→lt, Bool-cases, inl, inr,
  append-nil,
}
use mathlib.Core.List.{Memᴰ}
use astronomy.Prelude.Arrays.{at_or, write, filled, length-filled, at_or-filled}
use astronomy.Prelude.Orders.{Precedes, Distinct}
use astronomy.Ir.Functions.{BlockId}
use astronomy.Verify.Cfg.{Search, targets, marked, enter, visit, search_from, rounds, start, search}
use astronomy.Verify.Cfg.Dfs.{Edge, Walk, entry, along, blocks_of, order, IsSearch}
use astronomy.Verify.Cfg.Dfs.Keeps.{visit-IsSearch, start-IsSearch}

-- The rounds that the blocks still to enter will take.
abbrev unentered : List (List BlockId) → List Bool → ℕ
unentered [] marks = 0
unentered (ss ∷ succs) [] = suc (length ss) + unentered succs []
unentered (ss ∷ succs) (true ∷ marks) = unentered succs marks
unentered (ss ∷ succs) (false ∷ marks) = suc (length ss) + unentered succs marks

abbrev pending : List (List BlockId) → List (BlockId × ℕ) → ℕ
pending succs [] = 0
pending succs ((b, k) ∷ rest) = suc (length (targets succs b) - k) + pending succs rest

abbrev work : List (List BlockId) → Search → ℕ
work succs s = unentered succs s.reachable + pending succs s.stack

unentered-write :
    (succs : List (List BlockId)) (marks : List Bool) (t : ℕ)
    → t < length succs
    → length marks ≡ length succs
    → at_or false marks t ≡ false
    → unentered succs (write t true marks) + suc (length (targets succs t)) ≡ unentered succs marks
unentered-write [] marks t h size e = absurd (omega arith)
unentered-write (ss ∷ succs) [] t h size e = absurd (omega arith)
unentered-write (ss ∷ succs) (true ∷ marks) zero h size e = cc
unentered-write (ss ∷ succs) (false ∷ marks) zero h size e = omega arith
unentered-write (ss ∷ succs) (true ∷ marks) (suc t) h size e =
    unentered-write succs marks t (omega arith) (omega arith) e
unentered-write (ss ∷ succs) (false ∷ marks) (suc t) h size e =
    omega (arith, unentered-write succs marks t (omega arith) (omega arith) e)

unentered-filled :
    (succs : List (List BlockId)) → unentered succs (filled (length succs) false) ≡ rounds succs
unfolding rounds
unentered-filled [] = refl
unentered-filled (ss ∷ succs) = omega (arith, unentered-filled succs)

-- Each round takes one off.
work-visit :
    (succs : List (List BlockId)) (s : Search) (b k : ℕ) (rest : List (BlockId × ℕ))
    → s.stack ≡ (b, k) ∷ rest
    → length s.reachable ≡ length succs
    → suc (work succs (visit succs b k rest s)) ≡ work succs s
unfolding visit enter
work-visit succs s b k rest top size =
    let ss = targets succs b in
    let t = at_or 0 ss (length ss - 1 - k) in
    let before : pending succs s.stack ≡ suc (length ss - k) + pending succs rest =
      ap (pending succs) top in
    elim (Bool-cases (ltb k (length ss))) [
      | inr done ↦ rw done (omega (arith, before, let l : length ss ≤ k = ground arith in l))
      | inl more ↦
          let lt = ltb→lt k (length ss) more in
          elim (Bool-cases (ltb t (length succs) && not (marked s t))) [
            | inl new ↦
                let range : t < length succs = ground arith in
                let fresh : marked s t ≡ false = ground arith in
                rw (more, new)
                  (omega (arith, before, unentered-write succs s.reachable t range size fresh))
            | inr old ↦ rw (more, old) (omega (arith, before))
          ]
    ]

stack_cases :
    (l : List (BlockId × ℕ))
    → (l ≡ []) ⊎ ((b k : ℕ) × (rest : List (BlockId × ℕ)) × (l ≡ (b, k) ∷ rest))
stack_cases [] = inl refl
stack_cases ((b, k) ∷ rest) = inr (b, k, rest, refl)

search_from_ends :
    (succs : List (List BlockId)) (fuel : ℕ) (s : Search)
    → IsSearch succs s
    → work succs s ≤ fuel
    → (t : Search) × (search_from succs fuel s ≡ some t) × IsSearch succs t × (t.stack ≡ [])
unfolding search_from
search_from_ends succs zero s h enough = elim (stack_cases s.stack) [
  | inl e ↦ (s, simp (e, search_from), h, e)
  | inr (b, k, rest, e) ↦ absurd (omega (arith, ap (pending succs) e))
]
search_from_ends succs (suc fuel) s h enough = elim (stack_cases s.stack) [
  | inl e ↦ (s, simp (e, search_from), h, e)
  | inr (b, k, rest, e) ↦
      let (t, ran, kept, empty) =
        search_from_ends succs fuel (visit succs b k rest s) (visit-IsSearch succs s b k rest e h)
          (omega (arith, work-visit succs s b k rest e h.size)) in
      (t, rw (e, search_from) ran, kept, empty)
]

work-start :
    (succs : List (List BlockId)) → 0 < length succs → work succs (start succs) ≡ rounds succs
unfolding start
work-start succs body =
    let blank = filled (length succs) false in
    omega (
      arith,
      unentered-write succs blank 0 body (length-filled (length succs) false)
          (at_or-filled (length succs) false 0),
      unentered-filled succs,
    )

-- Of a function with a body, the search ends within its rounds, with all that it entered left.
pub search_ends :
    (succs : List (List BlockId))
    → 0 < length succs
    → (t : Search) × (search succs ≡ some t) × IsSearch succs t × (t.stack ≡ [])
unfolding search
search_ends succs body =
    search_from_ends succs (rounds succs) (start succs) (start-IsSearch succs body)
      (omega (arith, work-start succs body))

module _ (succs : List (List BlockId)) (t : Search) (h : IsSearch succs t)
    (empty : t.stack ≡ []) where
  pub order_done : order t ≡ t.post
  order_done = ap (λ l. t.post ++ blocks_of l) empty ∙ append-nil t.post

  pub marked_of_Walk : (v : BlockId) → Walk succs v → marked t v ≡ true
  marked_of_Walk v entry = h.root
  marked_of_Walk v (along {u = u} p e) =
      h.closed u v (subst (Memᴰ u) order_done ((h.listed u).0 (marked_of_Walk u p))) e

-- For a function with a body, the search ends within the rounds it is given, and has then marked exactly the blocks that a walk from the entry block leads to.
pub search-reaches :
    (succs : List (List BlockId))
    → 0 < length succs
    → (t : Search) × (search succs ≡ some t) × ((v : BlockId) → (marked t v ≡ true) ↔ Walk succs v)
search-reaches succs body =
    let (t, ran, h, empty) = search_ends succs body in
    (t, ran, λ v. (h.sound v, marked_of_Walk succs t h empty v))

-- Reachable blocks, each once, each but the entry block before one of its predecessors.
pub record IsPostorder (succs : List (List BlockId)) (post : List BlockId) : Type 0 where
  pub distinct : Distinct post
  pub reach : (v : BlockId) → Walk succs v ↔ Memᴰ v post
  pub parent :
      (v : BlockId) → Memᴰ v post → v ≢ 0 → (u : BlockId) × Edge succs u v × Precedes v u post

module _ (succs : List (List BlockId)) (t : Search) (h : IsSearch succs t)
    (empty : t.stack ≡ []) where
  pub post-IsPostorder : IsPostorder succs t.post
  post-IsPostorder =
      let done = order_done succs t h empty in
      record {
        distinct = subst Distinct done h.distinct;
        reach = λ v. (
          λ p. subst (Memᴰ v) done ((h.listed v).0 (marked_of_Walk succs t h empty v p)),
          λ m. h.sound v ((h.listed v).1 (subst (Memᴰ v) (sym done) m)),
        );
        parent = λ v m other.
            let (u, e, p) = h.parent v ((h.listed v).1 (subst (Memᴰ v) (sym done) m)) other in
            (u, e, subst (Precedes v u) done p);
      }

-- For a function with a body, the blocks that the search leaves are those that control can reach, each once, and each but the entry block has a predecessor that is left after it: in reverse post-order every block stands behind one of its predecessors.
pub search_post-Precedes :
    (succs : List (List BlockId))
    → 0 < length succs
    → (t : Search) × (search succs ≡ some t)
      × Distinct t.post
      × ((v : BlockId) → Walk succs v ↔ Memᴰ v t.post)
      × ((v : BlockId)
          → Memᴰ v t.post
          → v ≢ 0
          → (u : BlockId) × Edge succs u v × Precedes v u t.post)
search_post-Precedes succs body =
    let (t, ran, h, empty) = search_ends succs body in
    let post = post-IsPostorder succs t h empty in (t, ran, post.distinct, post.reach, post.parent)
