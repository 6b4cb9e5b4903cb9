-- ===== src/Transaction/Solutions.antt =====
-- pkg/transaction/solutions.go: the choice of UTXOs that pay for an amount. An amount is a `*big.Int`
-- that is nil or not negative; `none` is nil. A slice that may be nil is an `Option` of a list.
pub mod Select
use railgun_go.Common.{
  ℕ, zero, suc, ◌+◌, ◌-◌, ◌*◌, ◌/◌, ◌%◌, ltb, leb, ◌==◌, ◌&&◌, ◌||◌, not, if◌then◌else◌, Bool, true,
  false, Option, none, some, List, [], ◌∷◌, ◌++◌, Text, text_eq, codes, length,
}

pub record SolutionTxo : Type 0 where
  pub id : Text
  pub txid : Text
  pub tree : ℕ
  pub position : ℕ
  pub value : Option ℕ

pub record TreeBalance : Type 0 where
  pub balance : Option ℕ
  pub utxos : List SolutionTxo

-- The amount, where nil counts as nothing.
abbrev pub or_nothing : Option ℕ → ℕ
or_nothing none = 0
or_nothing (some v) = v

abbrev pub valid_nullifier_counts : ℕ → Bool
valid_nullifier_counts n = leb 1 n && leb n 10

unfoldable pub calculate_total_spend : List SolutionTxo → ℕ
calculate_total_spend [] = 0
calculate_total_spend (utxo ∷ utxos) = or_nothing utxo.value + calculate_total_spend utxos

unfoldable pub filter_zero_utxos : List SolutionTxo → List SolutionTxo
filter_zero_utxos [] = []
filter_zero_utxos (utxo ∷ utxos) =
    let rest = filter_zero_utxos utxos in if or_nothing utxo.value == 0 then rest else utxo ∷ rest

-- `sort.SliceStable` by value: a new element goes in front of the first greater one.
unfoldable pub insert_by_value : SolutionTxo → List SolutionTxo → List SolutionTxo
insert_by_value u [] = u ∷ []
insert_by_value u (v ∷ vs) =
    let rest = insert_by_value u vs in
    if ltb (or_nothing v.value) (or_nothing u.value) then v ∷ rest else u ∷ v ∷ vs

unfoldable pub sort_utxos_by_ascending_value : List SolutionTxo → List SolutionTxo
sort_utxos_by_ascending_value [] = []
sort_utxos_by_ascending_value (u ∷ us) = insert_by_value u (sort_utxos_by_ascending_value us)

-- The first UTXO of exactly that value.
unfoldable pub find_exact : List SolutionTxo → ℕ → Option SolutionTxo
find_exact [] required = none
find_exact (u ∷ us) required =
    let rest = find_exact us required in if or_nothing u.value == required then some u else rest

-- `for len(filtered) > len(selected) && …`: `left` is `filtered[len(selected):]`.
unfoldable pub select_loop : ℕ → List SolutionTxo → List SolutionTxo → List SolutionTxo
select_loop required selected [] = selected
select_loop required selected (u ∷ left) =
    let more = select_loop required (selected ++ u ∷ []) left in
    if ltb (calculate_total_spend selected) required then more else selected

abbrev pub selected_over : ℕ → List SolutionTxo → Option (List SolutionTxo)
selected_over required selected =
    if ltb (calculate_total_spend selected) required
    then none
    else if valid_nullifier_counts (length selected)
    then some selected
    else none

abbrev pub or_single : Option SolutionTxo → Option (List SolutionTxo) → Option (List SolutionTxo)
or_single none otherwise = otherwise
or_single (some u) otherwise = some (u ∷ [])

unfoldable pub solutions_over : List SolutionTxo → ℕ → Option (List SolutionTxo)
solutions_over filtered required =
    or_single (find_exact filtered required)
      (selected_over required (select_loop required [] (sort_utxos_by_ascending_value filtered)))

unfoldable pub find_exact_solutions_over_target_value :
    TreeBalance → Option ℕ → Option (List SolutionTxo)
find_exact_solutions_over_target_value tree none = some []
find_exact_solutions_over_target_value tree (some required) = elim tree.balance [
  | none ↦ some []
  | some balance ↦
      if ltb balance required
      then some []
      else solutions_over (filter_zero_utxos tree.utxos) required
]

-- `%d` of a number with at most as many digits as the fuel.
unfoldable pub decimal_digits : ℕ → ℕ → Text
decimal_digits zero n = []
decimal_digits (suc fuel) n =
    let high = decimal_digits fuel (n / 10) in
    let digit : ℕ = 48 + n % 10 in (if n / 10 == 0 then [] else high) ++ digit ∷ []

-- `fmt.Sprintf("%s-%d", utxo.TXID, utxo.Position)`: a uint64 has at most 20 digits.
unfoldable pub utxo_id_position : SolutionTxo → Text
utxo_id_position utxo = utxo.txid ++ codes "-" ++ decimal_digits 20 utxo.position

unfoldable pub is_excluded : List Text → Text → Bool
is_excluded [] id = false
is_excluded (e ∷ excluded) id = text_eq e id || is_excluded excluded id

unfoldable pub drop_excluded : List Text → List SolutionTxo → List SolutionTxo
drop_excluded excluded [] = []
drop_excluded excluded (u ∷ us) =
    let rest = drop_excluded excluded us in
    if is_excluded excluded (utxo_id_position u) then rest else u ∷ rest

-- The first valid count from `i` on, among `count` of them.
unfoldable pub next_valid : ℕ → ℕ → ℕ
next_valid zero i = 0
next_valid (suc count) i =
    let later = next_valid count (i + 1) in if valid_nullifier_counts i then i else later

unfoldable pub next_nullifier_target : ℕ → ℕ
next_nullifier_target utxo_count = next_valid (10 - utxo_count) (utxo_count + 1)

unfoldable pub should_add_more : ℕ → ℕ → ℕ → ℕ → Bool
should_add_more count total spend required =
    if leb required spend
    then false
    else if next_nullifier_target count == 0
    then false
    else leb (next_nullifier_target count) total

-- `left` is `filtered[len(selected):]`, and `total` is `len(filtered)`.
unfoldable pub batch_loop : ℕ → ℕ → List SolutionTxo → List SolutionTxo → List SolutionTxo
batch_loop total required selected [] = selected
batch_loop total required selected (u ∷ left) =
    let more = batch_loop total required (selected ++ u ∷ []) left in
    if should_add_more (length selected) total (calculate_total_spend selected) required
    then more
    else selected

abbrev pub valid_batch : List SolutionTxo → Option (List SolutionTxo)
valid_batch selected = if valid_nullifier_counts (length selected) then some selected else none

unfoldable pub batch_of : List SolutionTxo → ℕ → Option (List SolutionTxo)
batch_of [] required = none
batch_of (u ∷ us) required = or_single (find_exact (u ∷ us) required) (
    valid_batch (batch_loop (length (u ∷ us)) required [] (sort_utxos_by_ascending_value (u ∷ us))))

unfoldable pub find_next_solution_batch : TreeBalance → ℕ → List Text → Option (List SolutionTxo)
find_next_solution_batch tree required excluded =
    batch_of (drop_excluded excluded (filter_zero_utxos tree.utxos)) required
