-- ===== src/ModuleAbi/Scenarios.antt =====
-- Two imports, a kernel that exports both, and one that does not.
use ubuntu_install_on_samsun.Prelude.{
  ℕ, zero, suc, ◌-◌, ◌≡◌, refl, ◌↔◌, List, [], ◌∷◌, ◌++◌, length, All, ok, err, ℤ, pos, codes,
  split_from, lines_from,
}
use ubuntu_install_on_samsun.ModuleAbi.{
  Text, Dict, not_whole, not_elf64, malformed_line, elf_sections, versions_from,
  parse_versions_blob, items_from, modinfo_items, parse_modinfo_blob, hex_digits,
  parse_symvers_lines, parse_symvers_text, audit,
}
use ubuntu_install_on_samsun.ModuleAbi.Audit.{Matches, audit-Matches}
use ubuntu_install_on_samsun.ModuleAbi.Versions.{IsVersion, parse_versions_blob-All}

abbrev zeros : ℕ → List ℕ
zeros zero = []
zeros (suc n) = 0 ∷ zeros n

abbrev version_record : ℕ → Text → List ℕ
version_record crc name = crc ∷ zeros 7 ++ (name ++ zeros (56 - length name))

abbrev versions : List ℕ
versions = version_record 7 (codes "printk") ++ version_record 26 (codes "kfree")

abbrev imports : Dict ℕ
imports = (codes "printk", 7) ∷ (codes "kfree", 26) ∷ []

abbrev symvers : Text
symvers = codes "0x7 printk vmlinux\n\n1a kfree\n"

abbrev exports : Dict ℤ
exports = (codes "printk", pos 7) ∷ (codes "kfree", pos 26) ∷ []

parses : parse_versions_blob versions ≡ ok imports
unfolding parse_versions_blob versions_from
parses = refl

half_record : parse_versions_blob (zeros 32) ≡ err not_whole
unfolding parse_versions_blob versions_from
half_record = refl

reads_symvers : parse_symvers_text symvers ≡ ok exports
unfolding parse_symvers_text parse_symvers_lines hex_digits lines_from split_from
reads_symvers = refl

one_field : parse_symvers_text (codes "0x7\n") ≡ err malformed_line
unfolding parse_symvers_text parse_symvers_lines hex_digits lines_from split_from
one_field = refl

no_elf : elf_sections (zeros 64) ≡ err not_elf64
unfolding elf_sections
no_elf = refl

info : parse_modinfo_blob (codes "a=b=c" ++ 0 ∷ codes "name") ≡ ok ((codes "a", codes "b=c") ∷ [])
unfolding parse_modinfo_blob modinfo_items items_from
info = refl

reports_missing :
    audit imports ((codes "kfree", pos 27) ∷ []) ≡ (codes "printk" ∷ [], codes "kfree" ∷ [])
unfolding audit
reports_missing = refl

audit-Matches_example : (audit imports exports ≡ ([], [])) ↔ Matches exports imports
audit-Matches_example = audit-Matches imports exports

parse_versions_blob-All_example : All IsVersion imports
parse_versions_blob-All_example = parse_versions_blob-All versions imports parses
