-- ===== src/Reads/Watermarks.antt =====
-- The digests and the cursor of a page of an address's digests of services/Sui.ts.
use sui_effect.Prelude.{
  ℕ, zero, suc, false, Option, none, some, List, [], ◌∷◌, ◌++◌, ◌≡◌, refl, sym, ap, ◌∙◌, ◌+◌, ◌≤◌,
  ◌<◌, ◌||◌, ltb, leb, length, length-append, take, Text, arith, ◌⊎◌, inl, inr,
}
use mathlib.Core.List.{append_assoc, append-nil}
use sui_effect.Schemas.{Digest, Bytes}
use sui_effect.Reads.Listing.{
  Frame, Scan, ledger_page_size, add_digest, frontier_after, read_frame, read_frames,
}

abbrev pub one_digest : Option Digest → List Digest
one_digest none = []
one_digest (some d) = d ∷ []

-- The digests of the frames, in order.
abbrev pub digests_of : List Frame → List Digest
digests_of [] = []
digests_of (f ∷ fs) = one_digest f.digest ++ digests_of fs

-- The frames up to the one that carries the n-th digest.
abbrev pub spend : Option Digest → ℕ → ℕ
spend none n = suc n
spend (some d) n = n

abbrev pub up_to : ℕ → List Frame → List Frame
up_to n [] = []
up_to zero (f ∷ fs) = []
up_to (suc n) (f ∷ fs) = f ∷ up_to (spend f.digest n) fs

take-all : (n : ℕ) (xs : List Digest) → length xs ≤ n → take n xs ≡ xs
take-all zero [] h = refl
take-all zero (x ∷ xs) h = absurd (omega arith)
take-all (suc n) [] h = refl
take-all (suc n) (x ∷ xs) h = ap (λ ys. x ∷ ys) (take-all n xs (omega arith))

take-append : (n : ℕ) (xs ys : List Digest) → n ≤ length xs → take n (xs ++ ys) ≡ take n xs
take-append zero xs ys h = refl
take-append (suc n) [] ys h = absurd (omega arith)
take-append (suc n) (x ∷ xs) ys h = ap (λ zs. x ∷ zs) (take-append n xs ys (omega arith))

module _ (to_base64 : Bytes → Text) where
  abbrev pub last_watermark : Option Text → List Frame → Option Text
  last_watermark before [] = before
  last_watermark before (f ∷ fs) = last_watermark (frontier_after to_base64 before f.watermark) fs

  -- A frame of a page that is full, and of one that is not.
  record FullStep (s : Scan) (o : Option Digest) (t : Scan) : Type 0 where
    digests : t.digests ≡ s.digests
    end_cursor : t.end_cursor ≡ s.end_cursor
    saw_lookahead : t.saw_lookahead ≡ s.saw_lookahead || ltb 0 (length (one_digest o))

  add_digest-FullStep :
      (s : Scan) (o : Option Digest)
      → length s.digests ≡ ledger_page_size
      → FullStep s o (add_digest s o)
  unfolding add_digest
  add_digest-FullStep s none full = record {
    digests = refl;
    end_cursor = refl;
    saw_lookahead = ground arith;
  }
  add_digest-FullStep s (some d) full =
      rw (full) (record { digests = refl; end_cursor = refl; saw_lookahead = ground arith })

  read_frame-FullStep :
      (s : Scan) (f : Frame)
      → length s.digests ≡ ledger_page_size
      → FullStep s f.digest (read_frame to_base64 s f)
  unfolding read_frame
  read_frame-FullStep s f full =
      let k =
        add_digest-FullStep
          (record s { frontier = frontier_after to_base64 s.frontier f.watermark }) f.digest full in
      record { digests = k.digests; end_cursor = k.end_cursor; saw_lookahead = k.saw_lookahead }

  -- A full page keeps its digests and its cursor, and any further digest is seen as more.
  pub record FullAt (s : Scan) (fs : List Frame) (t : Scan) : Type 0 where
    pub digests : t.digests ≡ s.digests
    pub end_cursor : t.end_cursor ≡ s.end_cursor
    pub saw_lookahead : t.saw_lookahead ≡ s.saw_lookahead || ltb 0 (length (digests_of fs))

  pub read_frames-FullAt :
      (s : Scan) (fs : List Frame)
      → length s.digests ≡ ledger_page_size
      → FullAt s fs (read_frames to_base64 s fs)
  unfolding read_frames
  read_frames-FullAt s [] full = record {
    digests = refl;
    end_cursor = refl;
    saw_lookahead = ground arith;
  }
  read_frames-FullAt s (f ∷ fs) full =
      let k = read_frame-FullStep s f full in
      let ih = read_frames-FullAt (read_frame to_base64 s f) fs (ap length k.digests ∙ full) in
      record {
        digests = ih.digests ∙ k.digests;
        end_cursor = ih.end_cursor ∙ k.end_cursor;
        saw_lookahead = ground (
          arith,
          ih.saw_lookahead,
          k.saw_lookahead,
          length-append (one_digest f.digest) (digests_of fs),
        );
      }

  pub record OpenStep (s : Scan) (f : Frame) (t : Scan) : Type 0 where
    pub digests : t.digests ≡ s.digests ++ one_digest f.digest
    pub saw_lookahead : t.saw_lookahead ≡ s.saw_lookahead
    pub frontier : t.frontier ≡ frontier_after to_base64 s.frontier f.watermark
    pub end_cursor : (d : Digest) → f.digest ≡ some d → t.end_cursor ≡ t.frontier

  add_digest-open :
      (s : Scan) (o : Option Digest)
      → length s.digests < ledger_page_size
      → ((add_digest s o).digests ≡ s.digests ++ one_digest o)
        × ((add_digest s o).saw_lookahead ≡ s.saw_lookahead)
        × ((add_digest s o).frontier ≡ s.frontier)
        × ((d : Digest) → o ≡ some d → (add_digest s o).end_cursor ≡ s.frontier)
  unfolding add_digest
  add_digest-open s none open_page = (sym (append-nil s.digests), refl, refl, λ d e. cc)
  add_digest-open s (some d) open_page = rw (not_full) (refl, refl, refl, λ d e. refl)
    where
      not_full : leb ledger_page_size (length s.digests) ≡ false
      not_full = ground arith

  pub read_frame-OpenStep :
      (s : Scan) (f : Frame)
      → length s.digests < ledger_page_size
      → OpenStep s f (read_frame to_base64 s f)
  unfolding read_frame
  read_frame-OpenStep s f open_page =
      let (a, b, c, d) =
        add_digest-open (record s { frontier = frontier_after to_base64 s.frontier f.watermark })
          f.digest open_page in
      record { digests = a; saw_lookahead = b; frontier = c; end_cursor = λ x e. d x e ∙ sym c }

  pub length-one_digest : (o : Option Digest) → length (one_digest o) ≤ 1
  length-one_digest none = omega arith
  length-one_digest (some d) = omega arith

  pub record PageAt (s : Scan) (fs : List Frame) (t : Scan) : Type 0 where
    pub digests : t.digests ≡ take ledger_page_size (s.digests ++ digests_of fs)
    pub saw_lookahead :
        t.saw_lookahead
        ≡ s.saw_lookahead || ltb ledger_page_size (length s.digests + length (digests_of fs))

  pub read_frames-PageAt :
      (s : Scan) (fs : List Frame)
      → length s.digests ≤ ledger_page_size
      → PageAt s fs (read_frames to_base64 s fs)
  unfolding read_frames
  read_frames-PageAt s [] small = record {
    digests = sym (
        take-all ledger_page_size (s.digests ++ []) (omega (arith, length-append s.digests []))
        ∙ append-nil s.digests);
    saw_lookahead = ground arith;
  }
  read_frames-PageAt s (f ∷ fs) small = elim (Nat-cases (length s.digests) small) [
    | inl full ↦
        let k = read_frames-FullAt s (f ∷ fs) full in
        record {
          digests =
              k.digests
              ∙ sym (
                  take-append ledger_page_size s.digests (digests_of (f ∷ fs)) (omega (arith, full))
                  ∙ take-all ledger_page_size s.digests small);
          saw_lookahead = ground (arith, k.saw_lookahead, full);
        }
    | inr open_page ↦
        let k = read_frame-OpenStep s f open_page in
        let ih = read_frames-PageAt (read_frame to_base64 s f) fs (
          omega (
            arith,
            ap length k.digests,
            length-append s.digests (one_digest f.digest),
            length-one_digest f.digest,
          )) in
        record {
          digests =
              ih.digests
              ∙ ap (λ xs. take ledger_page_size (xs ++ digests_of fs)) k.digests
              ∙ ap (take ledger_page_size)
                  (append_assoc s.digests (one_digest f.digest) (digests_of fs));
          saw_lookahead = ground (
            arith,
            ih.saw_lookahead,
            k.saw_lookahead,
            ap length k.digests,
            length-append s.digests (one_digest f.digest),
            length-append (one_digest f.digest) (digests_of fs),
          );
        }
  ]
    where
      Nat-cases : (n : ℕ) → n ≤ ledger_page_size → (n ≡ ledger_page_size) ⊎ (n < ledger_page_size)
      Nat-cases n h = ground arith
