-- ===== src/Bundler/Download/Progress.antt =====
-- crates/bundler/src/download.rs: the progress that `download_asset` reports.
use hwwctl.Prelude.{
  ℕ, zero, suc, ◌+◌, ◌*◌, ◌/◌, ◌%◌, ◌≤◌, ◌<◌, ◌≡◌, refl, ap, ◌∙◌, List, [], ◌∷◌, length, Option,
  none, some, inl, inr, arith,
}
use native.Mathlib.Nat.{le-div_iff_mul-le, le_refl, le_trans}
use hwwctl.Protocol.Varint.{u64_mod}
use hwwctl.Bundler.Files.{PathBuf, append}
use hwwctl.Bundler.Status.{BundleStatus, downloading, State, and_then, send, Os, write_chunk}
use hwwctl.Bundler.Status.Frame.{final, attempt-cases}
use hwwctl.Bundler.Download.{Chunk, bytes, broken, progress, receive}

-- Percentages that do not fall and do not pass 100, from one on.
abbrev pub Rising : ℕ → List ℕ → Type 0
Rising from [] = Unit
Rising from (p ∷ ps) = (from ≤ p) × (p ≤ 100) × Rising p ps

-- The bytes of a body.
unfoldable pub body_length : List Chunk → ℕ
body_length [] = 0
body_length (broken ∷ cs) = 0
body_length (bytes b ∷ cs) = length b + body_length cs

-- The statuses sent once these percentages were reported, the latest first.
abbrev pub reported : List ℕ → List BundleStatus → List BundleStatus
reported [] sent = sent
reported (p ∷ ps) sent = reported ps (downloading p ∷ sent)

div_mono : (a b k : ℕ) → a ≤ b → a / suc k ≤ b / suc k
div_mono a b k h =
    let positive : zero < suc k = omega arith in
    (le-div_iff_mul-le positive).1
      (le_trans ((le-div_iff_mul-le positive).0 (le_refl (a / suc k))) h)

progress_mono :
    (total : Option ℕ) (m n : ℕ) → m ≤ n → n * 100 < u64_mod → progress total m ≤ progress total n
unfolding progress
progress_mono none m n h small = omega arith
progress_mono (some zero) m n h small = omega arith
progress_mono (some (suc total)) m n h small =
    let low : m * 100 % u64_mod ≡ m * 100 = omega (arith, small) in
    let high : n * 100 % u64_mod ≡ n * 100 = omega (arith, small) in
    rw (low, high) (omega (arith, div_mono (m * 100) (n * 100) total (omega arith)))

progress_bound : (total : Option ℕ) (n : ℕ) → progress total n ≤ 100
unfolding progress
progress_bound none n = omega arith
progress_bound (some zero) n = omega arith
progress_bound (some (suc total)) n = omega arith

-- As long as a hundred times the count of bytes stays below 2 ^ 64, what `download_asset` reports while it
-- receives a body are percentages that never fall and never pass 100.
pub receive-Rising :
    (os : Os) (tmp : PathBuf) (total : Option ℕ) (n downloaded : ℕ) (cs : List Chunk) (s : State)
    → (downloaded + body_length cs) * 100 < u64_mod
    → (ps : List ℕ) × ((final (receive os tmp total n downloaded cs s)).sent ≡ reported ps s.sent)
      × Rising (progress total downloaded) ps
unfolding receive and_then send body_length
receive-Rising os tmp total n downloaded [] s small = ([], refl, tt)
receive-Rising os tmp total n downloaded (broken ∷ cs) s small = ([], refl, tt)
receive-Rising os tmp total n downloaded (bytes b ∷ cs) s small =
    elim (attempt-cases os (write_chunk n) (append tmp b s.tree) s) [
      | inl refused ↦ ([], rw refused refl, tt)
      | inr (t, _, came) ↦
          let same : (downloaded + length b) % u64_mod ≡ downloaded + length b =
            omega (arith, small) in
          let next = progress total (downloaded + length b) in
          let (ps, sent, rising) =
            receive-Rising os tmp total (n + 1) (downloaded + length b) cs
              (send (downloading next) (record s { tree = t })) (omega (arith, small)) in
          (
            next ∷ ps,
            rw came (
                ap
                  (λ d.
                    (final (
                      receive os tmp total (n + 1) d cs
                        (send (downloading (progress total d)) (record s { tree = t })))).sent)
                  same
                ∙ sent),
            (
              progress_mono total downloaded (downloaded + length b) (omega arith)
                  (omega (arith, small)),
              progress_bound total (downloaded + length b),
              rising,
            ),
          )
    ]
