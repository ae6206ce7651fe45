-- ===== src/Mutations/Laws/Creation.antt =====
-- What `_create_state` leaves, whether it raises or not.
use reverso_llm.Prelude.{Bool, true, false, none, some, ◌≡◌, ◌≢◌, refl, sym, ap, ◌∙◌, arith}
use reverso_llm.Mutations.{
  octets, Kind, absent, file, directory, symlink, FileState, Location, Fault, exists, not_found,
  other, Ran, done, failed, Disk, mode_or, bytes_of, text_of,
}
use reverso_llm.Mutations.Leaf.{
  sibling, Created, created, cleaned, unlinked, linked, written, given_mode, opened_file,
  create_file, observed, create_kind, create_state,
}
use reverso_llm.Mutations.Laws.{
  Call, create, fchmod, write, link, make_symlink, mkdir, unlink, place, Modes, recreated, is_write,
  effect, IsTaken, CallPost, SameBut, IsLawful,
}

module _ (D : Disk) (M : Modes) (L : IsLawful D M) where
  abbrev pub CreatedPost : Location → FileState → D.World → Created D.World → Type 0
  CreatedPost p s w (created none observed v) =
      SameBut D M L.entry L.scratch p w v × (L.entry p v ≡ recreated D M s)
  CreatedPost p s w (created (some e) observed v) =
      SameBut D M L.entry L.scratch p w v
      × (observed ≡ false → L.entry p v ≡ L.entry p w)
      × (observed ≡ true → L.entry p v ≡ recreated D M s)
      × (e ≡ exists → (L.entry p w).kind ≢ absent)

  -- A temporary file is scratch, which the path is not.
  module _ (p : Location) (clean : L.scratch p ≡ false) (t : Location)
      (hidden : L.scratch t ≡ true) where
    apart : (q : Location) → L.scratch q ≡ false → q ≢ t
    apart q c e = absurd (ground (arith, c, hidden, ap L.scratch e))

    module _ (s : FileState) (w : D.World) where
      -- While the file is made: nothing else changed, and the path is as it was or as wanted.
      abbrev Midway : Bool → D.World → Type 0
      Midway observed v =
          SameBut D M L.entry L.scratch p w v
          × (observed ≡ false → L.entry p v ≡ L.entry p w)
          × (observed ≡ true → L.entry p v ≡ recreated D M s)

      Midway-on :
          (ob : Bool) (v u : D.World)
          → ((q : Location) → q ≢ t → L.entry q u ≡ L.entry q v)
          → Midway ob v
          → Midway ob u
      Midway-on ob v u others (same, early, late) = (
        λ q c off. others q (apart q c) ∙ same q c off,
        λ e. others p (apart p clean) ∙ early e,
        λ e. others p (apart p clean) ∙ late e,
      )

      cleaned-Post :
          (e : Fault) (ob : Bool) (v : D.World) (r : Ran D.World)
          → CallPost D M L.entry (unlink t) v r
          → Midway ob v
          → (e ≡ exists → (L.entry p w).kind ≢ absent)
          → CreatedPost p s w (cleaned D e ob r)
      unfolding cleaned
      cleaned-Post e ob v (done u) (others, _) mid taken =
          let (a, b, c) = Midway-on ob v u others mid in (a, b, c, taken)
      cleaned-Post e ob v (failed not_found u) (others, _, _) mid taken =
          let (a, b, c) = Midway-on ob v u others mid in (a, b, c, taken)
      cleaned-Post e ob v (failed exists u) (others, _, ex) mid taken = absurd (ex refl)
      cleaned-Post e ob v (failed other u) (others, _, _) mid taken =
          let (a, b, c) = Midway-on ob v u others mid in (a, b, c, λ x. absurd (ground (arith, x)))

      unlinked-Post :
          (v : D.World) (r : Ran D.World)
          → CallPost D M L.entry (unlink t) v r
          → Midway true v
          → CreatedPost p s w (unlinked D t r)
      unfolding unlinked
      unlinked-Post v (done u) (others, _) mid =
          let (a, b, c) = Midway-on true v u others mid in (a, c refl)
      unlinked-Post v (failed e u) (others, _, ex) mid =
          cleaned-Post e true u (D.unlink t u) (L.call_law (unlink t) u)
            (Midway-on true v u others mid) (λ x. absurd (ex x))

      linked-Post :
          (v : D.World) (r : Ran D.World)
          → CallPost D M L.entry (link t p) v r
          → L.entry t v ≡ recreated D M s
          → Midway false v
          → CreatedPost p s w (linked D t r)
      unfolding linked
      linked-Post v (done u) (others, e) made (same, early, late) =
          unlinked-Post u (D.unlink t u) (L.call_law (unlink t) u)
            (λ q c off. others q off ∙ same q c off, λ x. absurd (ground (arith, x)), λ x. e ∙ made)
      linked-Post v (failed e u) (others, kept, ex) made (same, early, late) =
          cleaned-Post e false u (D.unlink t u) (L.call_law (unlink t) u)
            (
              λ q c off. others q off ∙ same q c off,
              λ x. kept refl ∙ early refl,
              λ x. absurd (ground (arith, x)),
            )
            (λ x. rw (sym (early refl)) (ex x))

      written-Post :
          (v : D.World) (r : Ran D.World)
          → CallPost D M L.entry (write t (bytes_of s.contents)) v r
          → record (L.entry t v) { contents = octets (bytes_of s.contents) } ≡ recreated D M s
          → Midway false v
          → CreatedPost p s w (written D t p r)
      unfolding written
      written-Post v (done u) (others, e) made mid =
          linked-Post u (D.link t p u) (L.call_law (link t p) u) (e ∙ made)
            (Midway-on false v u others mid)
      written-Post v (failed e u) (others, kept, ex) made mid =
          cleaned-Post e false u (D.unlink t u) (L.call_law (unlink t) u)
            (Midway-on false v u others mid) (λ x. absurd (ex x))

      module _ (is_file : s.kind ≡ file) where
        final :
            (old : FileState)
            → old.kind ≡ file
            → record {
              kind = old.kind;
              contents = octets (bytes_of s.contents);
              mode = some (mode_or 384 s.mode);
            }
              ≡ recreated D M s
        unfolding recreated
        final old e = rw (is_file, e) refl

        given_mode-Post :
            (v : D.World) (r : Ran D.World)
            → CallPost D M L.entry (fchmod t (mode_or 384 s.mode)) v r
            → (L.entry t v).kind ≡ file
            → Midway false v
            → CreatedPost p s w (given_mode D t p (bytes_of s.contents) r)
        unfolding given_mode
        given_mode-Post v (done u) (others, e) is mid =
            written-Post u (D.write t (bytes_of s.contents) u)
              (L.call_law (write t (bytes_of s.contents)) u)
              (ap {A = FileState} (λ old. record old { contents = octets (bytes_of s.contents) }) e
                ∙ final (L.entry t v) is)
              (Midway-on false v u others mid)
        given_mode-Post v (failed e u) (others, kept, ex) is mid =
            cleaned-Post e false u (D.unlink t u) (L.call_law (unlink t) u)
              (Midway-on false v u others mid) (λ x. absurd (ex x))

        opened_file-Post :
            (v : D.World) (r : Ran D.World)
            → CallPost D M L.entry (create t (mode_or 384 s.mode)) v r
            → (L.entry t v).kind ≡ absent
            → Midway false v
            → CreatedPost p s w (opened_file D t p s r)
        unfolding opened_file
        opened_file-Post v (done u) (others, e) free mid =
            given_mode-Post u (D.fchmod t (mode_or 384 s.mode) u)
              (L.call_law (fchmod t (mode_or 384 s.mode)) u) (ap {A = FileState} (λ x. x.kind) e)
              (Midway-on false v u others mid)
        opened_file-Post v (failed e u) (others, kept, ex) free mid =
            let (a, b, c) = Midway-on false v u others mid in (a, b, c, λ x. absurd (ex x free))

  observed-Post :
      (c : Call) (s : FileState) (w : D.World) (r : Ran D.World)
      → CallPost D M L.entry c w r
      → is_write c ≡ false
      → effect D M L.entry c w ≡ recreated D M s
      → (IsTaken D M L.entry c w → (L.entry (place c) w).kind ≢ absent)
      → CreatedPost (place c) s w (observed D r)
  unfolding observed
  observed-Post c s w (done u) (others, e) quiet made taken = (λ q _ off. others q off, e ∙ made)
  observed-Post c s w (failed e u) (others, kept, ex) quiet made taken =
      (λ q _ off. others q off, λ _. kept quiet, λ x. absurd (ground (arith, x)), λ x. taken (ex x))

  create_file-Post :
      (p : Location) (s : FileState) (w : D.World)
      → s.kind ≡ file
      → L.scratch p ≡ false
      → CreatedPost p s w (create_file D p s (D.token w))
  unfolding create_file
  create_file-Post p s w is clean =
      let v = (D.token w).1 in
      let t = sibling p (D.token w).0 ".tmp" in
      let (hidden, free) = L.sibling_law p ".tmp" w in
      opened_file-Post p clean t hidden s w is v (D.create t (mode_or 384 s.mode) v)
        (L.call_law (create t (mode_or 384 s.mode)) v)
        (ap {A = FileState} (λ x. x.kind) (L.token_law t w) ∙ free)
        (λ q _ _. L.token_law q w, λ _. L.token_law p w, λ x. absurd (ground (arith, x)))

  create_kind-Post :
      (k : Kind) (p : Location) (s : FileState) (w : D.World)
      → s.kind ≡ k
      → L.scratch p ≡ false
      → (L.entry p w).kind ≡ absent
      → CreatedPost p s w (create_kind D k p s w)
  unfolding create_kind recreated
  create_kind-Post absent p s w is clean free = (λ q _ _. refl, L.absent_law p w free ∙ rw is refl)
  create_kind-Post directory p s w is clean free =
      observed-Post (mkdir p (mode_or 448 s.mode)) s w (D.mkdir p (mode_or 448 s.mode) w)
        (L.call_law (mkdir p (mode_or 448 s.mode)) w) refl (rw is refl) (λ x. x)
  create_kind-Post symlink p s w is clean free =
      observed-Post (make_symlink (text_of D s.contents) p) s w
        (D.make_symlink (text_of D s.contents) p w)
        (L.call_law (make_symlink (text_of D s.contents) p) w) refl (rw is refl) (λ x. x)
  create_kind-Post file p s w is clean free = create_file-Post p s w is clean

  pub create_state-Post :
      (p : Location) (s : FileState) (w : D.World)
      → L.scratch p ≡ false
      → (L.entry p w).kind ≡ absent
      → CreatedPost p s w (create_state D p s w)
  unfolding create_state
  create_state-Post p s w clean free = create_kind-Post s.kind p s w refl clean free
