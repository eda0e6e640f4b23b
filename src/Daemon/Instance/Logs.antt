-- ===== src/Daemon/Instance/Logs.antt =====
-- crates/hwwctl/src/daemon/instance.rs: what `collect_logs` returns.
use hwwctl.Prelude.{
  ℕ, ◌-◌, ◌≤◌, ◌≡◌, refl, ap, ◌∙◌, List, [], ◌∷◌, length, drop, Option, none, some, All, leb, ltb,
  ◌==◌, if◌then◌else◌, Bool-cases, inl, inr, arith,
}
use hwwctl.Control.Types.{LogEntry, LogSource}
use hwwctl.Daemon.Instance.{Instance, insert_entry, sort_entries, gather, keep_tail, collect_logs}

-- In order of time.
abbrev pub IsSorted : List LogEntry → Type 0
IsSorted [] = Unit
IsSorted (e ∷ es) = All (λ f. e.ts_ms ≤ f.ts_ms) es × IsSorted es

-- The entries of time `t`, in their order.
abbrev pub at_time : ℕ → List LogEntry → List LogEntry
at_time t [] = []
at_time t (e ∷ es) = if e.ts_ms == t then e ∷ at_time t es else at_time t es

All-le :
    (a b : ℕ) (es : List LogEntry) → a ≤ b → All (λ f. b ≤ f.ts_ms) es → All (λ f. a ≤ f.ts_ms) es
All-le a b [] le h = tt
All-le a b (e ∷ es) le (h, hs) = (omega arith, All-le a b es le hs)

All-insert_entry :
    (a : ℕ) (e : LogEntry) (es : List LogEntry)
    → a ≤ e.ts_ms
    → All (λ f. a ≤ f.ts_ms) es
    → All (λ f. a ≤ f.ts_ms) (insert_entry e es)
unfolding insert_entry
All-insert_entry a e [] h hs = (h, tt)
All-insert_entry a e (f ∷ fs) h (hf, hs) = elim (Bool-cases (leb e.ts_ms f.ts_ms)) [
  | inl le ↦ rw le (h, (hf, hs))
  | inr gt ↦ rw gt (hf, All-insert_entry a e fs h hs)
]

insert_entry-IsSorted :
    (e : LogEntry) (es : List LogEntry) → IsSorted es → IsSorted (insert_entry e es)
unfolding insert_entry
insert_entry-IsSorted e [] h = (tt, tt)
insert_entry-IsSorted e (f ∷ fs) (hf, hs) = elim (Bool-cases (leb e.ts_ms f.ts_ms)) [
  | inl le ↦
      rw le ((ground (arith, le), All-le e.ts_ms f.ts_ms fs (ground (arith, le)) hf), (hf, hs))
  | inr gt ↦
      rw gt (All-insert_entry f.ts_ms e fs (ground (arith, gt)) hf, insert_entry-IsSorted e fs hs)
]

at_time-insert_entry :
    (t : ℕ) (e : LogEntry) (es : List LogEntry) → at_time t (insert_entry e es) ≡ at_time t (e ∷ es)
unfolding insert_entry
at_time-insert_entry t e [] = refl
at_time-insert_entry t e (f ∷ fs) = ground (arith, at_time-insert_entry t e fs)

pub sort_entries-IsSorted : (es : List LogEntry) → IsSorted (sort_entries es)
unfolding sort_entries
sort_entries-IsSorted [] = tt
sort_entries-IsSorted (e ∷ es) =
    insert_entry-IsSorted e (sort_entries es) (sort_entries-IsSorted es)

pub at_time-sort_entries : (t : ℕ) (es : List LogEntry) → at_time t (sort_entries es) ≡ at_time t es
unfolding sort_entries
at_time-sort_entries t [] = refl
at_time-sort_entries t (e ∷ es) =
    at_time-insert_entry t e (sort_entries es)
    ∙ ap (λ es. if e.ts_ms == t then e ∷ es else es) (at_time-sort_entries t es)

-- The most recent entries, as many as asked for: all without a limit.
abbrev pub latest : Option ℕ → List LogEntry → List LogEntry
latest none es = es
latest (some n) es = drop (length es - n) es

keep_tail_lem : (tail : Option ℕ) (es : List LogEntry) → keep_tail tail es ≡ latest tail es
unfolding keep_tail
keep_tail_lem none es = refl
keep_tail_lem (some n) es = elim (Bool-cases (ltb n (length es))) [
  | inl more ↦ ground (arith, more)
  | inr fits ↦
      let z : length es - n ≡ 0 = ground (arith, fits) in
      ground (arith, fits, ap (λ k. drop k es) z)
]

-- The logs of an instance are the latest entries, as many as asked for, of a list that is in order of
-- time and has the entries gathered, those of the same time in the order in which they were gathered.
pub collect_logs_lem :
    (now : ℕ) (source : LogSource) (tail : Option ℕ) (i : Instance)
    → (all : List LogEntry) × (collect_logs now source tail i ≡ latest tail all)
      × IsSorted all
      × ((t : ℕ) → at_time t all ≡ at_time t (gather now source i))
unfolding collect_logs
collect_logs_lem now source tail i =
    let all = sort_entries (gather now source i) in
    (
      all,
      keep_tail_lem tail all,
      sort_entries-IsSorted (gather now source i),
      λ t. at_time-sort_entries t (gather now source i),
    )
