-- ===== src/WildcardImport/TextFile/Rewrite.antt =====
-- What is read from a file that the fixer has written.
use scala_gazelle.Prelude.{
  Str, str_has_eq, str_eq_refl, IsNotEmpty, true, false, ◌||◌, some, List, [], ◌∷◌, ◌++◌, ◌==◌,
  scan_lines, All, All-append, ◌≡◌, refl, arith, Bool-cases, inl, inr, ◌⊎◌, has_byte,
  scan_lines-IsLine, IsLine, unlines, scan_lines-unlines, join-unlines, append_assoc, ◌∙◌,
  append-nil, sym, All-map,
}
use scala_gazelle.WildcardImport.TextFile.{
  TextFile, commented, add_line, add_lines, new_file, finish, new_text_file_from_reader, write,
  write_original, write_commented,
}

module _ (target : Str) where
  -- neither the import line nor its comment
  abbrev pub IsOther : Str → Type 0
  IsOther l = (l == target || l == commented target) ≡ false

  add_lines-append :
      (xs ys : List Str) (f : TextFile)
      → add_lines target (xs ++ ys) f ≡ add_lines target ys (add_lines target xs f)
  unfolding add_lines
  add_lines-append [] ys f = refl
  add_lines-append (x ∷ xs) ys f = add_lines-append xs ys (add_line target x f)

  add_lines-before :
      (ls done : List Str)
      → All IsOther ls
      → add_lines target ls (record { before_lines = done; target_line = []; after_lines = [] })
        ≡ record { before_lines = done ++ ls; target_line = []; after_lines = [] }
  unfolding add_lines
  add_lines-before [] done h = rw (append-nil done) refl
  add_lines-before (l ∷ ls) done h =
      rw h.0 (add_lines-before ls (done ++ l ∷ []) h.1 ∙ rw (append_assoc done (l ∷ []) ls) refl)

  add_lines-after :
      (ls before done : List Str)
      → IsNotEmpty target
      → All IsOther ls
      → add_lines target ls
          (record { before_lines = before; target_line = target; after_lines = done })
        ≡ record { before_lines = before; target_line = target; after_lines = done ++ ls }
  unfolding add_lines
  add_lines-after [] before done n h = rw (append-nil done) refl
  add_lines-after (l ∷ ls) before done n h =
      rw (h.0, n)
        (add_lines-after ls before (done ++ l ∷ []) n h.1 ∙ rw (append_assoc done (l ∷ []) ls) refl)

  -- a line that is read as it was written and is not the import
  abbrev pub IsPlain : Str → Type 0
  IsPlain l = IsLine l × IsOther l

  abbrev pub split_at : List Str → List Str → TextFile
  split_at before after = record {
    before_lines = before;
    target_line = target;
    after_lines = after ++ [] ∷ [];
  }

  -- a file as `NewTextFileFromReader` makes it
  abbrev pub IsSplit : TextFile → Type 0
  IsSplit f =
      (before : List Str) × (after : List Str) × (f ≡ split_at before after)
      × All IsPlain before
      × All IsPlain after

  IsLine-plain : (ls : List Str) → All IsPlain ls → All IsLine ls
  IsLine-plain ls = All-map IsPlain IsLine ls λ l h. h.0

  IsOther-plain : (ls : List Str) → All IsPlain ls → All IsOther ls
  IsOther-plain ls = All-map IsPlain IsOther ls λ l h. h.1

  add_line-target :
      (line : Str) (before : List Str)
      → (line == target || line == commented target) ≡ true
      → add_line target line (record { before_lines = before; target_line = []; after_lines = [] })
        ≡ record { before_lines = before; target_line = target; after_lines = [] }
  add_line-target line before h = rw h refl

  -- reading a text that has the line once
  add_lines-split :
      (line : Str) (before after : List Str)
      → (line == target || line == commented target) ≡ true
      → IsNotEmpty target
      → All IsPlain before
      → All IsPlain after
      → add_lines target (before ++ line ∷ after) new_file
        ≡ record { before_lines = before; target_line = target; after_lines = after }
  unfolding add_lines
  add_lines-split line before after h n hb ha =
      rw
        (
          add_lines-append before (line ∷ after) new_file,
          add_lines-before before [] (IsOther-plain before hb),
          add_line-target line before h,
          add_lines-after after before [] n (IsOther-plain after ha),
        )
        refl

  new_text_file-unlines :
      (line : Str) (before after : List Str)
      → (line == target || line == commented target) ≡ true
      → IsNotEmpty target
      → IsLine line
      → All IsPlain before
      → All IsPlain after
      → new_text_file_from_reader (unlines (before ++ line ∷ after)) target
        ≡ some (split_at before after)
  unfolding new_text_file_from_reader
  new_text_file-unlines line before after h n hl hb ha =
      rw
        (
          scan_lines-unlines (before ++ line ∷ after) (
              All-append IsLine before (line ∷ after) (IsLine-plain before hb)
                (hl, IsLine-plain after ha)),
          add_lines-split line before after h n hb ha,
          n,
        )
        refl

  write-split :
      (line : Str) (before after : List Str)
      → write line (split_at before after) ≡ unlines (before ++ line ∷ after)
  unfolding write
  write-split line before after =
      rw
        (
          append_assoc before (line ∷ []) (after ++ [] ∷ []),
          sym (append_assoc before (line ∷ after) ([] ∷ [])),
        )
        (join-unlines (before ++ line ∷ after))

  -- the state of the loop: the lines so far, with the import among them or not
  IsLoop : TextFile → Type 0
  IsLoop f =
      All IsPlain f.before_lines
      × All IsPlain f.after_lines
      × (((f.target_line ≡ []) × (f.after_lines ≡ [])) ⊎ (f.target_line ≡ target))

  add_line-IsLoop :
      (line : Str) (f : TextFile)
      → IsNotEmpty target
      → IsLine line
      → IsLoop f
      → IsLoop (add_line target line f)
  unfolding IsLoop
  add_line-IsLoop line f n hl (hb, ha, s) =
      elim (Bool-cases (line == target || line == commented target)) [
        | inl e ↦ rw e (hb, ha, inr refl)
        | inr e ↦ elim s [
          | inl (t, a) ↦
              rw (e, t)
                (All-append IsPlain f.before_lines (line ∷ []) hb ((hl, e), tt), ha, inl (refl, a))
          | inr t ↦
              rw (e, t, n)
                (hb, All-append IsPlain f.after_lines (line ∷ []) ha ((hl, e), tt), inr refl)
        ]
      ]

  add_lines-IsLoop :
      (ls : List Str) (f : TextFile)
      → IsNotEmpty target
      → All IsLine ls
      → IsLoop f
      → IsLoop (add_lines target ls f)
  unfolding add_lines
  add_lines-IsLoop [] f n h s = s
  add_lines-IsLoop (l ∷ ls) f n h s =
      add_lines-IsLoop ls (add_line target l f) n h.1 (add_line-IsLoop l f n h.0 s)

  finish-IsSplit : (f g : TextFile) → IsNotEmpty target → IsLoop f → finish f ≡ some g → IsSplit g
  unfolding IsLoop
  finish-IsSplit f g n (hb, ha, inl (t, a)) h = ground (arith, t, h)
  finish-IsSplit f g n (hb, ha, inr t) h =
      (f.before_lines, f.after_lines, ground (arith, t, n, h), hb, ha)

  read-IsSplit :
      (content : Str) (f : TextFile)
      → IsNotEmpty target
      → has_byte 13 content ≡ false
      → new_text_file_from_reader content target ≡ some f
      → IsSplit f
  unfolding new_text_file_from_reader IsLoop
  read-IsSplit content f n h r =
      finish-IsSplit (add_lines target (scan_lines content) new_file) f n
        (add_lines-IsLoop (scan_lines content) new_file n (scan_lines-IsLine content h)
          (tt, tt, inl (refl, refl)))
        r

  rewritten :
      (f : TextFile)
      → IsNotEmpty target
      → IsLine target
      → IsLine (commented target)
      → IsSplit f
      → (new_text_file_from_reader (write_original f) target ≡ some f)
        × (new_text_file_from_reader (write_commented f) target ≡ some f)
  unfolding write_original write_commented
  rewritten f n hl hc (before, after, e, hb, ha) =
      rw (e, write-split target before after, write-split (commented target) before after)
        (
          new_text_file-unlines target before after (ground (arith, str_eq_refl target)) n hl hb ha,
          new_text_file-unlines (commented target) before after
              (ground (arith, str_eq_refl (commented target))) n hc hb ha,
        )

-- Let the import line be a line of a text, and its comment as well. A file without carriage returns
-- that is read, and written with the line or with its comment, reads as the same file again.
pub new_text_file_from_reader-write :
    (target content : Str) (f : TextFile)
    → IsNotEmpty target
    → IsLine target
    → IsLine (commented target)
    → has_byte 13 content ≡ false
    → new_text_file_from_reader content target ≡ some f
    → (new_text_file_from_reader (write_original f) target ≡ some f)
      × (new_text_file_from_reader (write_commented f) target ≡ some f)
new_text_file_from_reader-write target content f n hl hc h r =
    rewritten target f n hl hc (read-IsSplit target content f n h r)

-- A file of plain lines that has the import line once, or its comment, has the same lines and the
-- import line itself after it is read and `WriteOriginal` ran.
pub write_original-new_text_file_from_reader :
    (target line : Str) (before after : List Str)
    → (line == target || line == commented target) ≡ true
    → IsNotEmpty target
    → IsLine line
    → All (IsPlain target) before
    → All (IsPlain target) after
    → (f : TextFile) × (new_text_file_from_reader (unlines (before ++ line ∷ after)) target
        ≡ some f)
      × (write_original f ≡ unlines (before ++ target ∷ after))
unfolding write_original
write_original-new_text_file_from_reader target line before after h n hl hb ha = (
  split_at target before after,
  new_text_file-unlines target line before after h n hl hb ha,
  write-split target target before after,
)
