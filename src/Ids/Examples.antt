-- ===== src/Ids/Examples.antt =====
-- modules/common/ids.rs at a concrete email, with keys of constant octets.
use kagi.Base.{ℕ, ◌≡◌, refl, List, ◌++◌, map, arith, length, replicate}
use kagi.Base.Text.{codes}
use kagi.Base.Outcome.{ok}
use kagi.Recovery.{Hkdf}
use kagi.Recovery.Redeeming.{Fills}
use kagi.Ids.{
  trim_ascii, trim_start, trim_end, to_ascii_lowercase, tenant_id, workload_subject,
  tenant_info_label, workload_info_label,
}
use kagi.Ids.Trimmed.{StartsClean, EndsClean, trim_ascii_lem}
use kagi.Ids.Derived.{short, identifiers_lem}

abbrev nines : Hkdf
nines salt ikm info = replicate 32 9

nines-Fills : Fills nines
nines-Fills salt ikm info = (refl, omega arith)

abbrev email : List ℕ
email = codes "Ann@Example.org"

trimmed : trim_ascii email ≡ email
unfolding trim_ascii trim_start trim_end
trimmed = refl

trim_ascii_lem_example :
    (trim_ascii (codes " " ++ (email ++ codes "  ")) ≡ trim_ascii email)
    × StartsClean (trim_ascii email)
    × EndsClean (trim_ascii email)
trim_ascii_lem_example = trim_ascii_lem (codes " ") email (codes "  ") (refl, tt) (refl, (refl, tt))

identifiers_lem_example :
    (tenant_id nines (codes "secret") (codes " " ++ (email ++ codes " "))
      ≡ ok (
          short
            (nines (map to_ascii_lowercase (trim_ascii email)) (codes "secret") tenant_info_label)))
    × (workload_subject nines (codes "secret") (codes " " ++ (email ++ codes " "))
        ≡ ok (short (nines (trim_ascii email) (codes "secret") workload_info_label)))
    × (length (
          short
            (nines (map to_ascii_lowercase (trim_ascii email)) (codes "secret") tenant_info_label))
        ≡ 22)
    × (length (short (nines (trim_ascii email) (codes "secret") workload_info_label)) ≡ 22)
identifiers_lem_example =
    identifiers_lem nines (codes "secret") email (codes " ") (codes " ") nines-Fills (omega arith)
      (rw trimmed (omega arith)) (rw trimmed (omega arith)) (refl, tt) (refl, tt)
