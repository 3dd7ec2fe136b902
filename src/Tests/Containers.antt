-- ===== src/Tests/Containers.antt =====
-- aes_vfs/dll3.tcc: runs of the containers on given items.
use sqlite3gen.Base.{ℕ, ◌%◌, ◌*◌, ◌≡◌, refl, none, some, List, [], ◌∷◌, arith}
use sqlite3gen.Dll.Sequence as Sequence
use sqlite3gen.Dll.Links.{
  Dll, Links, new_links, new_list, add_tail, add_head, add_before, remove, dequeue_head, promote,
  check_mine,
}
use sqlite3gen.Dll.HashLru as Lru
use sqlite3gen.Dll.HashLru.Runs as LruRuns
use sqlite3gen.Dll.HashLru.Runs.{LruOp}
use sqlite3gen.Dll.HashLru.Recency.{Holds, new_lru-Holds, run-Holds}
use sqlite3gen.Dll.Links.Walks.{walk_forward, walk_back, reversed, walks-run}
use sqlite3gen.Dll.Links.Represents.{Represents}
use sqlite3gen.Dll.Links.Runs.{
  ListOp, op_add_head, op_add_tail, op_add_before, op_remove, op_dequeue_head, op_promote,
  complaints, call, call_sequence, run, run_sequence, Quiet,
}
use sqlite3gen.Dll.Links.Runs.Refinement.{new_list-Represents, run-Represents}

abbrev no_links : ℕ → Links
no_links z = new_links

abbrev some_calls : List ListOp
some_calls =
    op_add_tail 10
    ∷ op_add_tail 20
    ∷ op_add_before 15 20
    ∷ op_promote 20
    ∷ op_remove 15
    ∷ op_dequeue_head
    ∷ op_add_head 30
    ∷ []

abbrev start : Dll
start = new_list no_links

start-Represents : Represents 1 start []
unfolding new_links
start-Represents = new_list-Represents 1 no_links (λ z. refl)

some_calls-Quiet : Quiet 1 some_calls start
unfolding complaints call new_list new_links add_tail check_mine add_before promote add_head remove
    dequeue_head
some_calls-Quiet = (refl, (refl, (refl, (refl, (refl, (refl, (refl, tt)))))))

run-Represents_example :
    Represents 1 (run 1 some_calls start).0 (run_sequence some_calls []).0
    × ((run 1 some_calls start).1 ≡ (run_sequence some_calls []).1)
run-Represents_example = run-Represents 1 some_calls start [] start-Represents some_calls-Quiet

abbrev end : Dll
end = (run 1 some_calls start).0

walks-run_example :
    (walk_forward end ≡ some (run_sequence some_calls []).0)
    × (walk_back end ≡ some (reversed (run_sequence some_calls []).0))
walks-run_example = walks-run 1 some_calls start [] start-Represents some_calls-Quiet

results : (run 1 some_calls start).1 ≡ none ∷ none ∷ none ∷ none ∷ none ∷ some 20 ∷ none ∷ []
unfolding call new_list new_links dequeue_head remove promote add_head add_before add_tail
results = refl

sequence : (run_sequence some_calls []).0 ≡ 30 ∷ 10 ∷ []
unfolding call_sequence Sequence.erase Sequence.insert_before
sequence = refl

-- Hashes that different keys share.
abbrev low_bits : ℕ → ℕ
low_bits k = k % 4

abbrev square : ℕ → ℕ
square z = z * z

abbrev lru_calls : List LruOp
lru_calls =
    LruRuns.op_add 5
    ∷ LruRuns.op_add 6
    ∷ LruRuns.op_add 7
    ∷ LruRuns.op_promote 5
    ∷ LruRuns.op_find 36
    ∷ LruRuns.op_get_oldest
    ∷ LruRuns.op_remove 6
    ∷ LruRuns.op_get_oldest
    ∷ []

abbrev lru_start : Lru.HashLru
lru_start = Lru.new_lru 1 no_links (λ z. none)

lru_start-Holds : Holds 1 low_bits square lru_start []
unfolding new_links
lru_start-Holds =
    new_lru-Holds 1 1 low_bits square (omega arith) no_links (λ z. none) (λ z. refl) (λ z. refl)

run-Holds_example :
    Holds 1 low_bits square
      (LruRuns.run 1 1 low_bits square lru_calls lru_start).0
      (LruRuns.run_sequence square lru_calls []).0
    × ((LruRuns.run 1 1 low_bits square lru_calls lru_start).1
        ≡ (LruRuns.run_sequence square lru_calls []).1)
unfolding LruRuns.call Lru.add Lru.find Lru.new_lru Sequence.find_first
run-Holds_example =
    run-Holds 1 1 low_bits square (omega arith) lru_calls lru_start [] lru_start-Holds
      ((refl, refl), ((refl, refl), ((refl, refl), (refl, (tt, (tt, (refl, (tt, tt))))))))

lru_results :
    (LruRuns.run_sequence square lru_calls []).1
    ≡ none ∷ none ∷ none ∷ none ∷ some 6 ∷ some 6 ∷ none ∷ some 7 ∷ []
unfolding LruRuns.call_sequence Sequence.erase Sequence.find_first
lru_results = refl
