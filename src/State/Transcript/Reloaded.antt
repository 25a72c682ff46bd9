-- ===== src/State/Transcript/Reloaded.antt =====
-- The file of packages/state/src/transcript.ts holds what the store holds.
use mathlib.Core.Option.{some-injective}
use mathlib.Core.List.{append-nil}
use open_claw_bot.Common.{
  ◌≡◌, refl, sym, ap, subst, ◌∙◌, inl, inr, true, false, Option, none, some, List, [], ◌∷◌, ◌++◌,
  All-append, map, any, is_empty, ◌==◌, nat_eq, or_else, All, Bool-cases, Option-cases,
}
use open_claw_bot.Common.Texts.{Text, text_eq, trim}
use open_claw_bot.Common.Lines.{
  join_lines, unlines, IsLine, unlines-append, split-unlines, join-unlines,
}
use open_claw_bot.State.Transcript.{
  SandTranscriptEntry, entry_id, TranscriptStore, without_first, read_lines, read_file, load,
  all_lines, deleted, append, append_many, delete_entry, clear, StoreCall, appends, appends_many,
  deletes, clears, loads, store_call, store_calls, opened,
}

-- What is used of JSON, for the entries of a set `P`: the text of one is a line with no space at its
-- ends, and is read back.
pub record Json (stringify : SandTranscriptEntry → Text) (parse : Text → Option SandTranscriptEntry)
    (P : SandTranscriptEntry → Type 0) : Type 0 where
  pub one_line : (e : SandTranscriptEntry) → P e → any (λ c. c == 10) (stringify e) ≡ false
  pub trimmed : (e : SandTranscriptEntry) → P e → trim (stringify e) ≡ stringify e
  pub not_empty : (e : SandTranscriptEntry) → P e → is_empty (stringify e) ≡ false
  pub read_back : (e : SandTranscriptEntry) → P e → parse (stringify e) ≡ some e

-- A call that brings only entries of the set.
abbrev pub Brings : (SandTranscriptEntry → Type 0) → StoreCall → Type 0
Brings P (appends e) = P e
Brings P (appends_many es) = All P es
Brings P (deletes id) = Unit
Brings P clears = Unit
Brings P loads = Unit

without_first-All :
    (P : SandTranscriptEntry → Type 0) (id : Text) (es rest : List SandTranscriptEntry)
    → without_first id es ≡ some rest
    → All P es
    → All P rest
unfolding without_first
without_first-All P id [] rest h all = cc
without_first-All P id (e ∷ es) rest h (first, others) = elim (Bool-cases (entry_id e == id)) [
  | inl here ↦ subst (All P) (some-injective _ _ (rw here at h)) others
  | inr later ↦ elim (Option-cases (without_first id es)) [
    | inl none_left ↦ (let bad : none ≡ some rest = rw (later, none_left) at h in cc)
    | inr (r, found) ↦
        let same : some (e ∷ r) ≡ some rest = rw (later, found) at h in
        subst (All P) (some-injective _ _ same) (first, without_first-All P id es r found others)
  ]
]

module _ (stringify : SandTranscriptEntry → Text) (parse : Text → Option SandTranscriptEntry)
    (P : SandTranscriptEntry → Type 0) (json : Json stringify parse P) where
  open json use {one_line, trimmed, not_empty, read_back}

  read_lines-append :
      (xs ys : List Text)
      → read_lines stringify parse (xs ++ ys)
        ≡ read_lines stringify parse xs ++ read_lines stringify parse ys
  unfolding read_lines
  read_lines-append [] ys = refl
  read_lines-append (x ∷ xs) ys = elim (Bool-cases (is_empty (trim x))) [
    | inl blank ↦ rw blank (read_lines-append xs ys)
    | inr full ↦ elim (Option-cases (parse (trim x))) [
      | inl corrupt ↦ rw (full, corrupt, read_lines-append xs ys) (refl)
      | inr (e, good) ↦ rw (full, good, read_lines-append xs ys) (refl)
    ]
  ]

  read-printed :
      (es : List SandTranscriptEntry)
      → All P es
      → read_lines stringify parse (map stringify es) ≡ es
  unfolding read_lines
  read-printed [] h = refl
  read-printed (e ∷ es) (first, others) =
      rw (trimmed e first, not_empty e first, read_back e first, read-printed es others) refl

  lines_of_entries : (es : List SandTranscriptEntry) → All P es → All IsLine (map stringify es)
  lines_of_entries [] h = tt
  lines_of_entries (e ∷ es) (first, others) = (one_line e first, lines_of_entries es others)

  -- A file whose lines are those of the entries `es`.
  abbrev IsFile : Option Text → List SandTranscriptEntry → Type 0
  IsFile file es =
      (ls : List Text) × All IsLine ls
      × (or_else file [] ≡ unlines ls)
      × (read_lines stringify parse ls ≡ es)
      × (read_file stringify parse file ≡ es)

  read-unlines :
      (ls : List Text)
      → All IsLine ls
      → read_file stringify parse (some (unlines ls)) ≡ read_lines stringify parse ls
  unfolding read_file read_lines trim
  read-unlines ls good =
      ap (read_lines stringify parse) (split-unlines ls good)
      ∙ read_lines-append ls ([] ∷ [])
      ∙ append-nil (read_lines stringify parse ls)

  fresh-IsFile :
      (ls : List Text) → All IsLine ls → IsFile (some (unlines ls)) (read_lines stringify parse ls)
  fresh-IsFile ls good = (ls, good, refl, refl, read-unlines ls good)

  grown-IsFile :
      (file : Option Text) (es more : List SandTranscriptEntry) (ms : List Text)
      → All IsLine ms
      → read_lines stringify parse ms ≡ more
      → IsFile file es
      → IsFile (some (or_else file [] ++ unlines ms)) (es ++ more)
  grown-IsFile file es more ms new e (ls, old, text, content, _) =
      let whole = All-append IsLine ls ms old new in
      let same : unlines (ls ++ ms) ≡ or_else file [] ++ unlines ms =
        unlines-append ls ms ∙ ap (λ t. t ++ unlines ms) (sym text) in
      let reads : read_lines stringify parse (ls ++ ms) ≡ es ++ more =
        read_lines-append ls ms ∙ rw (content, e) refl in
      (
        ls ++ ms,
        whole,
        sym same,
        reads,
        subst (λ t. read_file stringify parse (some t) ≡ es ++ more) same
            (read-unlines (ls ++ ms) whole ∙ reads),
      )

  -- What appending several entries writes.
  block_lines : List SandTranscriptEntry → List Text
  block_lines [] = [] ∷ []
  block_lines (e ∷ es) = map stringify (e ∷ es)

  all_lines-unlines :
      (es : List SandTranscriptEntry) → all_lines stringify parse es ≡ unlines (block_lines es)
  unfolding all_lines join_lines block_lines
  all_lines-unlines [] = refl
  all_lines-unlines (e ∷ es) = join-unlines (stringify e) (map stringify es)

  block-IsLine : (es : List SandTranscriptEntry) → All P es → All IsLine (block_lines es)
  unfolding block_lines
  block-IsLine [] h = (refl, tt)
  block-IsLine (e ∷ es) h = lines_of_entries (e ∷ es) h

  read-block :
      (es : List SandTranscriptEntry) → All P es → read_lines stringify parse (block_lines es) ≡ es
  unfolding block_lines read_lines trim
  read-block [] h = refl
  read-block (e ∷ es) h = read-printed (e ∷ es) h

  rewritten-IsFile :
      (es : List SandTranscriptEntry) → All P es → IsFile (some (all_lines stringify parse es)) es
  rewritten-IsFile es h =
      subst (λ t. IsFile (some t) es) (sym (all_lines-unlines es))
        (subst (IsFile (some (unlines (block_lines es)))) (read-block es h)
          (fresh-IsFile (block_lines es) (block-IsLine es h)))

  -- A loaded store with a directory, whose file is that of its entries.
  abbrev kept : List SandTranscriptEntry → Option Text → TranscriptStore
  kept es file = record { entries = es; loaded = true; has_dir = true; file = file }

  abbrev pub IsSaved : TranscriptStore → Type 0
  IsSaved s =
      (es : List SandTranscriptEntry) × (file : Option Text) × (s ≡ kept es file)
      × IsFile file es
      × All P es

  deleted-IsSaved :
      (id : Text) (found : Option (List SandTranscriptEntry)) (es : List SandTranscriptEntry)
      (file : Option Text)
      → (found_all : (rest : List SandTranscriptEntry) → found ≡ some rest → All P rest)
      → IsFile file es
      → All P es
      → IsSaved (deleted stringify parse id found (kept es file)).0
  unfolding deleted
  deleted-IsSaved id none es file left good all = (es, file, refl, good, all)
  deleted-IsSaved id (some rest) es file left good all =
      let all_left = left rest refl in
      (rest, some (all_lines stringify parse rest), refl, rewritten-IsFile rest all_left, all_left)

  store_call-IsSaved :
      (c : StoreCall) (es : List SandTranscriptEntry) (file : Option Text)
      → Brings P c
      → IsFile file es
      → All P es
      → IsSaved (store_call stringify parse c (kept es file))
  unfolding store_call append append_many clear delete_entry load
  store_call-IsSaved (appends e) es file fits good all = (
    es ++ (e ∷ []),
    some (or_else file [] ++ (stringify e ++ (10 ∷ []))),
    refl,
    grown-IsFile file es (e ∷ []) (stringify e ∷ []) (lines_of_entries (e ∷ []) (fits, tt))
        (read-printed (e ∷ []) (fits, tt)) good,
    All-append P es (e ∷ []) all (fits, tt),
  )
  store_call-IsSaved (appends_many more) es file fits good all = (
    es ++ more,
    some (or_else file [] ++ all_lines stringify parse more),
    refl,
    subst (λ t. IsFile (some (or_else file [] ++ t)) (es ++ more)) (sym (all_lines-unlines more))
        (grown-IsFile file es more (block_lines more) (block-IsLine more fits)
          (read-block more fits) good),
    All-append P es more all fits,
  )
  store_call-IsSaved (deletes id) es file fits good all =
      deleted-IsSaved id (without_first id es) es file
        (λ rest h. without_first-All P id es rest h all) good all
  store_call-IsSaved clears es file fits good all =
      ([], some (all_lines stringify parse []), refl, rewritten-IsFile [] tt, tt)
  store_call-IsSaved loads es file fits good all = (es, file, refl, good, all)

  store_calls-IsSaved :
      (cs : List StoreCall) (s : TranscriptStore)
      → All (Brings P) cs
      → IsSaved s
      → IsSaved (store_calls stringify parse cs s)
  unfolding store_calls
  store_calls-IsSaved [] s fits good = good
  store_calls-IsSaved (c ∷ cs) s (fit, fits) (es, file, e, good, all) =
      store_calls-IsSaved cs (store_call stringify parse c s) fits (
        subst (λ x. IsSaved (store_call stringify parse c x)) (sym e)
          (store_call-IsSaved c es file fit good all))

  -- A store that starts with no file and is loaded, and JSON that reads back the entries of a set:
  -- after every history of appends of such entries, deletions, clearings and loads, another store that is opened over its file and loaded has the same entries in
  -- the same order.
  pub load-store_calls :
      (cs : List StoreCall)
      → All (Brings P) cs
      → (load stringify parse (
          opened true
            (store_calls stringify parse cs
              (load stringify parse (opened true none))).file)).entries
        ≡ (store_calls stringify parse cs (load stringify parse (opened true none))).entries
  unfolding load opened
  load-store_calls cs fits =
      let saved =
        store_calls-IsSaved cs (kept [] none) fits
          ([], none, refl, ([], tt, refl, refl, refl), tt) in
      subst (λ x. read_file stringify parse x.file ≡ x.entries) (sym saved.2) saved.3.4
