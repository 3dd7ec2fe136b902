-- ===== src/Dll/Links/Walks.antt =====
-- aes_vfs/dll3.tcc: the walks of a client, `for (i = get_head(); i; i = get_next(i))` and the same from
-- `get_tail` by `get_prev`. A walk makes at most `n` steps; `none` says that it had not come to NULL then.
use sqlite3gen.Base.{
  ℕ, zero, suc, ◌+◌, ◌≡◌, refl, sym, ◌∙◌, ap, Option, none, some, List, [], ◌∷◌, ◌++◌, arith,
  length, append_nil, append_assoc,
}
use sqlite3gen.Dll.Links.{Dll, get_head, get_tail, get_next, get_prev, get_cnt}
use sqlite3gen.Dll.Links.Chains.{first, last, Chain, Back}
use sqlite3gen.Dll.Links.Represents.{Represents}
use sqlite3gen.Dll.Links.Runs.{ListOp, run, run_sequence, Quiet}
use sqlite3gen.Dll.Links.Runs.Refinement.{run-Represents}

abbrev behind : ℕ → Option (List ℕ) → Option (List ℕ)
behind x none = none
behind x (some xs) = some (x ∷ xs)

-- A walk by a step that may be NULL.
abbrev pub walk : (step : ℕ → Option ℕ) → (n : ℕ) → Option ℕ → Option (List ℕ)
walk step n none = some []
walk step zero (some x) = none
walk step (suc n) (some x) = behind x (walk step n (step x))

-- The two walks, of as many steps as the count of the list says.
abbrev pub walk_forward : Dll → Option (List ℕ)
walk_forward s = walk (λ x. get_next x s) (get_cnt s) (get_head s)

abbrev pub walk_back : Dll → Option (List ℕ)
walk_back s = walk (λ x. get_prev x s) (get_cnt s) (get_tail s)

-- The items, the last first.
abbrev pub reversed : List ℕ → List ℕ
reversed [] = []
reversed (x ∷ xs) = reversed xs ++ x ∷ []

walk-Chain :
    (f : ℕ → Option ℕ) (xs : List ℕ)
    → Chain f xs none
    → walk f (length xs) (first xs none) ≡ some xs
walk-Chain f [] c = refl
walk-Chain f (x ∷ xs) c = ap (behind x) (ap (walk f (length xs)) c.0 ∙ walk-Chain f xs c.1)

-- A walk that passes the item `x`, and goes on from `p`.
walk_on :
    (g : ℕ → Option ℕ) (xs : List ℕ) (n : ℕ) (p : Option ℕ) (ys : List ℕ)
    → Back g p xs
    → walk g n p ≡ some ys
    → walk g (length xs + n) (last p xs) ≡ some (reversed xs ++ ys)
walk_on g [] n p ys b h = ap (λ k. walk g k p) (omega arith) ∙ h
walk_on g (x ∷ xs) n p ys b h =
    let here : walk g (suc n) (some x) ≡ some (x ∷ ys) = ap (behind x) (ap (walk g n) b.0 ∙ h) in
    ap (λ k. walk g k (last (some x) xs)) (omega arith)
    ∙ walk_on g xs (suc n) (some x) (x ∷ ys) b.1 here
    ∙ ap some (sym (append_assoc (reversed xs) (x ∷ []) ys))

walk-Back :
    (g : ℕ → Option ℕ) (xs : List ℕ)
    → Back g none xs
    → walk g (length xs) (last none xs) ≡ some (reversed xs)
walk-Back g xs b =
    ap (λ k. walk g k (last none xs)) (omega arith)
    ∙ walk_on g xs 0 none [] b refl
    ∙ ap some (append_nil (reversed xs))

walks_of :
    (me : ℕ) (s : Dll) (xs : List ℕ)
    → Represents me s xs
    → (walk_forward s ≡ some xs) × (walk_back s ≡ some (reversed xs))
unfolding get_next get_prev get_head get_tail get_cnt
walks_of me s xs r =
    let f : ℕ → Option ℕ = λ x. (s.links x).next in
    let g : ℕ → Option ℕ = λ x. (s.links x).prev in
    (
      ap (λ n. walk f n s.head) r.counted
          ∙ ap (walk f (length xs)) r.heads
          ∙ walk-Chain f xs r.nexts,
      ap (λ n. walk g n s.tail) r.counted
          ∙ ap (walk g (length xs)) r.tails
          ∙ walk-Back g xs r.prevs,
    )

-- After calls of a list whose links hold a sequence, in which no checkvalid prints an error, the
-- walk from get_head by get_next and the walk from get_tail by get_prev both come to NULL within
-- as many steps as get_cnt says, and visit the items that the same calls leave of the sequence,
-- the first walk in their order and the second in the reverse order.
pub walks-run :
    (me : ℕ) (ops : List ListOp) (s : Dll) (xs : List ℕ)
    → Represents me s xs
    → Quiet me ops s
    → (walk_forward (run me ops s).0 ≡ some (run_sequence ops xs).0)
      × (walk_back (run me ops s).0 ≡ some (reversed (run_sequence ops xs).0))
walks-run me ops s xs r q =
    walks_of me (run me ops s).0 (run_sequence ops xs).0 (run-Represents me ops s xs r q).0
