-- ===== src/Tests/Tables.antt =====
-- The theorems on tables, alias groups and the reading of a report, at concrete values.
use osvpy.Prelude.{ℕ, zero, suc, ◌-◌, ◌≡◌, refl, ap, List, [], ◌∷◌, ◌++◌, some, none, true}
use osvpy.Prelude.{
  arith, pos, negsuc, get_elem?, set, take, replicate, flatten, append-nil, length-replicate, inl,
  inr, ◌⊎◌,
}
use osvpy.Run.{ok, panic, Returns, invalid_index, checked}
use osvpy.Text.{bytes, has_prefix}
use osvpy.Maps.{Map, lookup, nat_comparable, list_comparable}
use osvpy.Slabs.{Slabs, Zero, uint32_zero}
use osvpy.Slabs
use osvpy.Slabs.Rows.{Models}
use osvpy.Slabs.Laws
use osvpy.Slabs.Laws.{empty-Models}
use osvpy.Slabs.Resize
use osvpy.Table.{Table, intern}
use osvpy.Table.Laws.{Interned, empty-Interned, intern_row}
use osvpy.Table.Laws.{intern-refines, intern-again}
use osvpy.Report.Stored.{Span, ListEntry, entry_zero}
use osvpy.Report.{ReportImage}
use osvpy.Payload.{string_zero}
use osvpy.Payload.Words.{find_words}
use osvpy.Payload.Ledger.{Chain, end, link}
use osvpy.Payload.Chain.{find_words_lem}
use osvpy.Alias.{AliasState, preferred, root}
use osvpy.Alias.Forest.{IsForest, Better, RootOf, here, up}
use osvpy.Finish.{flatten_names}
use osvpy.Finish.Roots.{ListsRoots, unflattened, flatten_names-flat}
use osvpy.Alias.Root.{root-RootOf, root-keeps}
use osvpy.Store.{ReportStore, image_zero}
use osvpy.Abi.{NativeValue, absent}
use osvpy.Abi.{rows_value}
use osvpy.Abi.Kinds.{batch_value}
use osvpy.Abi.Value.{value}
use osvpy.Abi.Sequences.{value-past_end}

module _ {A : Type 0} ⦃z : Zero A⦄ where
  abbrev pub two_rows : A → A → Slabs A
  two_rows a b = record { chunks = (a ∷ b ∷ replicate 1022 z.value) ∷ []; n = 2 }

  pub two_rows-Models : (a b : A) → Models (two_rows a b) (a ∷ b ∷ [])
  unfolding flatten
  two_rows-Models a b = record {
    count = refl;
    size = refl;
    padded = record {
      full = (ap (λ k. suc (suc k)) (length-replicate 1022 z.value), tt);
      fits = omega arith;
      shape = append-nil (a ∷ b ∷ replicate 1022 z.value);
    };
  }

abbrev sevens : Slabs ℕ
sevens = two_rows 7 8

abbrev seven_rows : List ℕ
seven_rows = 7 ∷ 8 ∷ []

sevens-Models : Models sevens seven_rows
sevens-Models = two_rows-Models 7 8

append-snoc_example :
    (s : Slabs ℕ) × (Slabs.append sevens 9 ≡ ok (2, s)) × Models s (seven_rows ++ 9 ∷ [])
append-snoc_example = Laws.append-snoc sevens seven_rows sevens-Models 9 (omega arith)

write-set_example : Returns (Slabs.write sevens (pos 1) 5) λ s. Models s (set seven_rows 1 5)
write-set_example = Laws.write-set sevens seven_rows sevens-Models 1 5 (omega arith)

truncate-take_example : Returns (Slabs.truncate sevens (pos 1)) λ s. Models s (take 1 seven_rows)
truncate-take_example = Resize.truncate-take sevens seven_rows sevens-Models 1 (omega arith)

resize-take_example :
    Returns (Slabs.resize sevens (pos 5)) λ s. Models s (take 5 seven_rows ++ replicate (5 - 2) 0)
resize-take_example = Resize.resize-take sevens seven_rows sevens-Models 5 (omega arith)

abbrev no_table : Table ℕ
no_table = record { ids = [] }

intern-refines_example :
    Returns
      (intern no_table Slabs.empty 7)
      λ r. (r.0 ≡ (intern_row {A = ℕ} 7 []).0) × Interned r.1 r.2 (intern_row {A = ℕ} 7 []).1
intern-refines_example = intern-refines no_table Slabs.empty [] 7 empty-Interned (omega arith)

intern-again_example : Returns (intern no_table Slabs.empty 7) λ r. intern r.1 r.2 7 ≡ ok r
intern-again_example = intern-again no_table Slabs.empty [] 7 empty-Interned (omega arith)

abbrev entry : ListEntry
entry = record { span = record { start = 0; count = 2 }; next = 0 }

abbrev entries : Slabs ListEntry
entries = two_rows entry entry_zero.value

abbrev chain_map : Map (List ℕ) Span
chain_map = (seven_rows, entry.span) ∷ []

one_link : Chain (entry ∷ entry_zero.value ∷ []) seven_rows 1 chain_map
one_link = link refl (omega arith) (refl, (refl, (refl, tt))) end

find_words_lem_example : find_words 1 entries sevens 1 seven_rows ≡ ok (lookup seven_rows chain_map)
find_words_lem_example =
    find_words_lem sevens seven_rows sevens-Models entries (entry ∷ entry_zero.value ∷ [])
      (two_rows-Models entry entry_zero.value) 1 seven_rows one_link (omega arith)

-- GHSA-1 and CVE-2 in one group.
abbrev group : AliasState
group = record {
  ctx = some 3;
  alias_id = (bytes "GHSA-1", 0) ∷ (bytes "CVE-2", 1) ∷ [];
  names = bytes "GHSA-1" ∷ bytes "CVE-2" ∷ [];
  parent = 1 ∷ 1 ∷ [];
}

cve_first : preferred (bytes "CVE-2") (bytes "GHSA-1") ≡ true
unfolding preferred has_prefix
cve_first = refl

group-links : (i p : ℕ) → get_elem? group.parent i ≡ some p → (p ≡ i) ⊎ Better group.names p i
group-links zero p e =
    let to : p ≡ 1 = ground arith in
    inr (
      rw to (record {
        better = bytes "CVE-2";
        worse = bytes "GHSA-1";
        at_p = refl;
        at_i = refl;
        order = cve_first;
      }))
group-links (suc zero) p e = inl (ground arith)
group-links (suc (suc i)) p e = absurd (ground arith)

group-IsForest : IsForest group.names group.parent
group-IsForest = record { size = refl; links = group-links }

root-RootOf_example :
    Returns
      (root 0 group)
      λ r. RootOf group.parent 0 r.0 × IsForest group.names r.1.parent × (r.1.names ≡ group.names)
root-RootOf_example = root-RootOf 0 group group-IsForest (omega arith)

root-keeps_example : Returns (root 0 group) λ r. RootOf r.1.parent 0 1
root-keeps_example = root-keeps 0 group 0 1 group-IsForest (omega arith) (up refl (here refl))

abbrev lasting : AliasState
lasting = record group { ctx = none }

flatten_names-flat_example : Returns (flatten_names 2 0 (unflattened lasting)) λ t.
    (t.alias.names ≡ group.names)
    × ((j q : ℕ) → RootOf group.parent j q → get_elem? t.alias.parent j ≡ some q)
    × ListsRoots group.parent t.roots
flatten_names-flat_example = flatten_names-flat lasting group-IsForest refl (omega arith)

abbrev image : ReportImage
image = record {
  requested = bytes "alpine";
  os = none;
  status = bytes "complete";
  diagnostics = none;
}

abbrev report : ReportStore
report = record {
  indexes = [];
  images = two_rows image image;
  packages = Slabs.empty;
  vulnerabilities = Slabs.empty;
  advisory_sources = Slabs.empty;
  contexts = Slabs.empty;
  assessments = Slabs.empty;
  licenses = Slabs.empty;
  fixes = Slabs.empty;
  occurrences = Slabs.empty;
  findings = Slabs.empty;
  advisory_vulnerabilities = Slabs.empty;
  strings = Slabs.empty;
  words = Slabs.empty;
}

abbrev two_images : NativeValue
two_images = record absent { tag = 5; number = 2 }

images-length : value report 1 0 0 1 (negsuc 0) ≡ ok two_images
unfolding value checked batch_value rows_value
images-length = refl

value-past_end_example : value report 1 0 0 1 (pos 4) ≡ panic invalid_index
value-past_end_example =
    value-past_end report 1 0 0 1 0 4 two_images images-length refl (omega arith)
