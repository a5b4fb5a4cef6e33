-- ===== src/Evidence/Laws.antt =====
-- Whose evidence the signed ledger of a client shows.
use caas_lite.Prelude.{
  ℕ, ◌≡◌, ◌↔◌, ◌⊎◌, refl, String, true, Option, none, some, List, [], ◌∷◌, ◌||◌, Bool-cases, inl,
  inr, In, sym,
}
use mathlib.Core.Path.{subst}
use caas_lite.Evidence.{
  EvidenceTables, EvidenceRow, Batch, LedgerEntry, Meter, find_meter, entries_of, is_given,
  entry_before, ledger_entry, exported_entries, export_signed_ledger,
}

-- A row that parses to a batch with an actor or an event.
abbrev pub Names : (String → Option Batch) → EvidenceRow → Batch → Type 0
Names parse row b =
    (parse row.batch_data ≡ some b) × ((is_given b.actor_id || is_given b.event_id) ≡ true)

-- An entry is that of a row which names somebody.
abbrev pub IsEntryOf : (String → Option Batch) → String → List EvidenceRow → LedgerEntry → Type 0
IsEntryOf parse client rows e =
    (row : EvidenceRow) × (b : Batch) × In row rows
    × Names parse row b
    × (e ≡ ledger_entry client row b)

entry_before-later :
    (client : String) (q : EvidenceRow) (parsed : Option Batch) (es : List LedgerEntry)
    (e : LedgerEntry)
    → In e es
    → In e (entry_before client q parsed es)
entry_before-later client q none es e i = i
entry_before-later client q (some b) es e i =
    elim (Bool-cases (is_given b.actor_id || is_given b.event_id)) [
      | inl t ↦ rw t (inr i)
      | inr f ↦ rw f i
    ]

entry_before-cases :
    (client : String) (q : EvidenceRow) (parsed : Option Batch) (es : List LedgerEntry)
    (e : LedgerEntry)
    → In e (entry_before client q parsed es)
    → ((b : Batch) × (parsed ≡ some b)
        × ((is_given b.actor_id || is_given b.event_id) ≡ true)
        × (e ≡ ledger_entry client q b))
      ⊎ In e es
entry_before-cases client q none es e i = inr i
entry_before-cases client q (some b) es e i =
    elim (Bool-cases (is_given b.actor_id || is_given b.event_id)) [
      | inl t ↦
          let j : In e (ledger_entry client q b ∷ es) = rw t at i in
          elim j [ inl same ↦ inl (b, refl, t, same) | inr later ↦ inr later ]
      | inr f ↦ inr (rw f at i)
    ]

module _ (parse : String → Option Batch) (client : String) where
  entries_of-has :
      (rows : List EvidenceRow) (row : EvidenceRow) (b : Batch)
      → In row rows
      → Names parse row b
      → In (ledger_entry client row b) (entries_of parse client rows)
  unfolding entries_of
  entries_of-has [] row b i n = absurd i
  entries_of-has (q ∷ rows) row b (inl same) (parses, named) =
      rw (sym same) (rw (parses, entry_before) (rw named (inl refl)))
  entries_of-has (q ∷ rows) row b (inr later) n =
      entry_before-later client q (parse q.batch_data) _ _ (entries_of-has rows row b later n)

  entries_of-only :
      (rows : List EvidenceRow) (e : LedgerEntry)
      → In e (entries_of parse client rows)
      → IsEntryOf parse client rows e
  unfolding entries_of
  entries_of-only [] e i = absurd i
  entries_of-only (q ∷ rows) e i =
      elim (entry_before-cases client q (parse q.batch_data) (entries_of parse client rows) e i) [
        | inl (b, parses, named, same) ↦ (q, b, inl refl, (parses, named), same)
        | inr later ↦
            let (row, b, here, names, same) = entries_of-only rows e later in
            (row, b, inr here, names, same)
      ]

  exported_with :
      (t : EvidenceTables) (m : Meter)
      → find_meter client t.meters ≡ some m
      → exported_entries parse client t ≡ entries_of parse client t.evidence
  unfolding exported_entries entries_of
  exported_with t m found = rw (found, exported_entries) refl

-- The ledger of any client that has a meter has an entry, under the client's name, for each row of
-- the table that parses and names an actor or an event, whoever it is of, and no other entry.
pub export_shows_everyone :
    (parse : String → Option Batch) (checksum : String → ℕ → List LedgerEntry → String)
    (client : String) (now : ℕ) (t : EvidenceTables) (m : Meter) (e : LedgerEntry)
    → find_meter client t.meters ≡ some m
    → In e (export_signed_ledger parse checksum client now t).entries
      ↔ IsEntryOf parse client t.evidence e
unfolding export_signed_ledger
export_shows_everyone parse checksum client now t m e found = (
  (λ i.
      entries_of-only parse client t.evidence e
        (subst (In e) (exported_with parse client t m found) i)),
  (λ (row, b, here, names, same). subst (In e) (sym (exported_with parse client t m found)) (
      subst (λ x. In x (entries_of parse client t.evidence)) (sym same)
        (entries_of-has parse client t.evidence row b here names))),
)
