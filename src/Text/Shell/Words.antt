-- ===== src/Text/Shell/Words.antt =====
-- A POSIX shell's reading of a recorded command.
use fie_importer.Prelude.{
  ℕ, ◌≡◌, refl, sym, ap, ◌∙◌, inl, inr, Bool, true, false, ◌&&◌, Option, none, some, List, [], ◌∷◌,
  ◌++◌, map, append_assoc, append-nil, ◌==◌, if◌then◌else◌, Bool-cases, ==_iff, is_empty,
}
use fie_importer.Prelude.Bytes.{Bytes}
use fie_importer.Text.Replace.{replace_all}
use fie_importer.Text.Shell.{is_safe, all_safe, apostrophe, backslash, space, shell_quote, join}

-- Where the shell is in a command: between words, in a word outside quotes, behind a backslash
-- there, or inside single quotes.
pub data Mode : Type 0 where
  between unquoted escaped quoted : Mode

-- A word so far is kept reversed by none: `cur` grows at its end, and `done` are the words before.
-- A byte that may be special to the shell outside quotes is refused.
unfoldable pub read_words : Mode → Bytes → List Bytes → Bytes → Option (List Bytes)
read_words between cur done [] = some done
read_words unquoted cur done [] = some (done ++ cur ∷ [])
read_words escaped cur done [] = none
read_words quoted cur done [] = none
read_words between cur done (c ∷ s) =
    let skip = read_words between [] done s in
    let open_quote = read_words quoted [] done s in
    let escape = read_words escaped [] done s in
    let word = read_words unquoted (c ∷ []) done s in
    if c == space
    then skip
    else if c == apostrophe
    then open_quote
    else if c == backslash
    then escape
    else if is_safe c
    then word
    else none
read_words unquoted cur done (c ∷ s) =
    let stop = read_words between [] (done ++ cur ∷ []) s in
    let open_quote = read_words quoted cur done s in
    let escape = read_words escaped cur done s in
    let word = read_words unquoted (cur ++ c ∷ []) done s in
    if c == space
    then stop
    else if c == apostrophe
    then open_quote
    else if c == backslash
    then escape
    else if is_safe c
    then word
    else none
read_words escaped cur done (c ∷ s) = read_words unquoted (cur ++ c ∷ []) done s
read_words quoted cur done (c ∷ s) =
    let close = read_words unquoted cur done s in
    let copy = read_words quoted (cur ++ c ∷ []) done s in if c == apostrophe then close else copy

differs : (k c : ℕ) → is_safe k ≡ false → is_safe c ≡ true → (c == k) ≡ false
differs k c hk hc = elim (Bool-cases (c == k)) [ inl e ↦ cc (hk, hc, (==_iff c k).0 e) | inr e ↦ e ]

-- A safe byte is none of the shell's three.
safe-plain :
    (c : ℕ)
    → is_safe c ≡ true
    → ((c == space) ≡ false) × ((c == apostrophe) ≡ false) × ((c == backslash) ≡ false)
unfolding is_safe
safe-plain c h = (differs space c refl h, differs apostrophe c refl h, differs backslash c refl h)

and_true : (a b : Bool) → (a && b) ≡ true → (a ≡ true) × (b ≡ true)
and_true true true h = (refl, refl)
and_true true false h = cc
and_true false b h = cc

read_unquoted_safe :
    (s cur : Bytes) (done : List Bytes) (rest : Bytes)
    → all_safe s ≡ true
    → read_words unquoted cur done (s ++ rest) ≡ read_words unquoted (cur ++ s) done rest
unfolding all_safe read_words
read_unquoted_safe [] cur done rest h = rw append-nil
read_unquoted_safe (c ∷ s) cur done rest h =
    let (hc, hs) = and_true _ _ h in
    let (h1, h2, h3) = safe-plain c hc in
    rw (h1, h2, h3, hc)
      (read_unquoted_safe s (cur ++ c ∷ []) done rest hs
        ∙ ap (λ w. read_words unquoted w done rest) (append_assoc cur (c ∷ []) s))

pub read_safe_word :
    (s : Bytes) (done : List Bytes) (rest : Bytes)
    → is_empty s ≡ false
    → all_safe s ≡ true
    → read_words between [] done (s ++ rest) ≡ read_words unquoted s done rest
unfolding all_safe read_words
read_safe_word [] done rest n h = cc
read_safe_word (c ∷ s) done rest n h =
    let (hc, hs) = and_true _ _ h in
    let (h1, h2, h3) = safe-plain c hc in
    rw (h1, h2, h3, hc) (read_unquoted_safe s (c ∷ []) done rest hs)

-- what `shellQuote` writes for an apostrophe
abbrev hidden : Bytes
hidden = apostrophe ∷ backslash ∷ apostrophe ∷ apostrophe ∷ []

read_hidden :
    (cur : Bytes) (done : List Bytes) (rest : Bytes)
    → read_words quoted cur done (hidden ++ rest)
      ≡ read_words quoted (cur ++ apostrophe ∷ []) done rest
unfolding read_words
read_hidden cur done rest = refl

read_copied :
    (c : ℕ) (cur : Bytes) (done : List Bytes) (rest : Bytes)
    → (c == apostrophe) ≡ false
    → read_words quoted cur done (c ∷ rest) ≡ read_words quoted (cur ++ c ∷ []) done rest
unfolding read_words
read_copied c cur done rest h = rw h

read_closed :
    (cur : Bytes) (done : List Bytes) (rest : Bytes)
    → read_words quoted cur done (apostrophe ∷ rest) ≡ read_words unquoted cur done rest
unfolding read_words
read_closed cur done rest = refl

read_opened :
    (done : List Bytes) (rest : Bytes)
    → read_words between [] done (apostrophe ∷ rest) ≡ read_words quoted [] done rest
unfolding read_words
read_opened done rest = refl

read_quoted_word :
    (s cur : Bytes) (done : List Bytes) (rest : Bytes)
    → read_words quoted cur done (replace_all s apostrophe hidden ++ apostrophe ∷ rest)
      ≡ read_words unquoted (cur ++ s) done rest
unfolding replace_all
read_quoted_word [] cur done rest = rw append-nil (read_closed cur done rest)
read_quoted_word (c ∷ s) cur done rest = elim (Bool-cases (c == apostrophe)) [
  | inl e ↦
      let same : c ≡ apostrophe = (==_iff c apostrophe).0 e in
      rw (e, read_hidden, read_quoted_word s, append_assoc, same)
  | inr e ↦ rw (e, read_copied c cur done _ e, read_quoted_word s, append_assoc)
]

-- A shell-quoted argument is read back as the word so far.
read_shell_quote :
    (s : Bytes) (done : List Bytes) (rest : Bytes)
    → read_words between [] done (shell_quote s ++ rest) ≡ read_words unquoted s done rest
unfolding shell_quote replace_all
read_shell_quote [] done rest = read_opened done _ ∙ read_closed [] done rest
read_shell_quote (c ∷ s) done rest = elim (Bool-cases (all_safe (c ∷ s))) [
  | inl e ↦ rw e (read_safe_word (c ∷ s) done rest refl e)
  | inr e ↦ rw (e, append_assoc) (read_opened done _ ∙ read_quoted_word (c ∷ s) [] done rest)
]

pub read_end :
    (s : Bytes) (done : List Bytes) → read_words unquoted s done [] ≡ some (done ++ s ∷ [])
unfolding read_words
read_end s done = refl

pub read_space :
    (s : Bytes) (done : List Bytes) (rest : Bytes)
    → read_words unquoted s done (space ∷ rest) ≡ read_words between [] (done ++ s ∷ []) rest
unfolding read_words
read_space s done rest = refl

read_last_word :
    (s : Bytes) (done : List Bytes)
    → read_words between [] done (shell_quote s) ≡ some (done ++ s ∷ [])
read_last_word s done =
    sym (ap (read_words between [] done) (append-nil (shell_quote s)))
    ∙ read_shell_quote s done []
    ∙ read_end s done

pub read_join :
    (args done : List Bytes)
    → read_words between [] done (join (map shell_quote args) (space ∷ [])) ≡ some (done ++ args)
unfolding join
read_join [] done = rw append-nil (unfold read_words in refl)
read_join (a ∷ []) done = read_last_word a done
read_join (a ∷ b ∷ args) done = rw (
  read_shell_quote a done _,
  read_space a done _,
  read_join (b ∷ args) (done ++ a ∷ []),
  append_assoc,
)
