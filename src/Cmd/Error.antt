-- ===== src/Cmd/Error.antt =====
-- The errors of the commands, by their messages.
use fie_importer.Prelude.{◌≡◌, refl, ℕ, Option, none, some, List}
use fie_importer.Prelude.Bytes.{Bytes}

pub data Error : Type 0 where
  invalid_table_name negative_offset bad_batch_size : Error
  user_not_set cannot_connect cannot_look_up already_exists cannot_create : Error
  transfer_failed no_pds cannot_summarize cannot_insert cannot_count : Error
  same_tables no_input cannot_list_columns nothing_to_join : Error
  lacks_columns : List Bytes → Error
  bad_ssh_parallel cannot_list no_vm interrupted cannot_log : Error
  cannot_open_pds cannot_open_source : Error
  cannot_read_file no_pd_ids bad_percent bad_filter pds_invalid : Error
  bad_pd_id bad_time : Bytes → Error
  -- ClickHouse has %d rows, %d were sent
  wrong_row_count : ℕ → ℕ → Error
  -- the command's own error with what `dropOnFailure` adds
  dropped drop_failed : Error → Error

-- `err` of Go: `none` is nil.
abbrev pub Failure : Type 0
Failure = Option Error

pub data Result {ℓ} (A : Type ℓ) : Type ℓ where
  ok : A → Result A
  err : Error → Result A

-- `if err != nil { return err }` before the next step.
unfoldable pub and_then : {S : Type 0} → Failure × S → (S → Failure × S) → Failure × S
and_then (none, a) next = next a
and_then (some e, a) next = (some e, a)

pub and_then_succeeds :
    {S : Type 0} (failure : Failure) (a : S) (next : S → Failure × S)
    → (and_then (failure, a) next).0 ≡ none
    → (failure ≡ none) × (and_then (failure, a) next ≡ next a)
unfolding and_then
and_then_succeeds none a next h = (refl, refl)
and_then_succeeds (some e) a next h = cc

-- The value of a step for the next one, or its error.
abbrev pub on_value : {A B : Type 0} → (A → Result B) → Result A → Result B
on_value next (err e) = err e
on_value next (ok a) = next a

pub on_value-ok :
    {A B : Type 0} (next : A → Result B) (first : Result A) (b : B)
    → on_value next first ≡ ok b
    → (a : A) × (first ≡ ok a) × (next a ≡ ok b)
on_value-ok next (ok a) b h = (a, refl, h)
on_value-ok next (err e) b h = absurd (cc)
