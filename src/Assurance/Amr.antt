-- ===== src/Assurance/Amr.antt =====
-- modules/common/assurance.rs: `write_amr` and `MAX_AMR_JSON`.
pub mod Rendered
use kagi.Base.{
  ℕ, ◌+◌, Bool, true, false, Option, none, some, List, [], ◌∷◌, ◌++◌, ltb, leb, if◌then◌else◌,
  length,
}
use kagi.Base.Text.{codes}
use kagi.Base.Maybe.{◌>>=◌}
use kagi.Base.Buffer.{put}
use kagi.Assurance.{AuthMethod, Evidence, all_methods, method_text, methods_of, distinct_factors}

-- One name between quotes, after a comma unless it is the first.
pub put_item : ℕ → List ℕ → Bool → AuthMethod → Option (List ℕ)
unfolding put
put_item out_len written first method = do
  separated ← if first then some written else put out_len written (codes ",")
  opened ← put out_len separated (codes "\"")
  named ← put out_len opened (method_text method)
  put out_len named (codes "\"")

pub put_items : ℕ → List ℕ → Bool → List AuthMethod → Option (List ℕ × Bool)
unfolding put_item
put_items out_len written first [] = some (written, first)
put_items out_len written first (method ∷ methods) =
    put_item out_len written first method >>= λ t. put_items out_len t false methods

pub write_amr : Evidence → ℕ → Option (List ℕ)
unfolding put_items
write_amr e out_len = do
  opened ← put out_len [] (codes "[")
  (written, first) ← put_items out_len opened true (methods_of e)
  all ←
      if leb 2 (distinct_factors e)
      then put_item out_len written first AuthMethod.mfa
      else some written
  put out_len all (codes "]")

pub amr_room : List AuthMethod → ℕ
amr_room [] = 0
amr_room (method ∷ methods) = length (method_text method) + 3 + amr_room methods

pub max_amr_json : ℕ
unfolding amr_room
max_amr_json = 2 + amr_room all_methods
