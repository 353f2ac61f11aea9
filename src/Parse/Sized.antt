-- ===== src/Parse/Sized.antt =====
-- The parsers of the streaming blocks of src/device.c on blocks that are long enough for them.
use usb_video_class.Base.{
  ℕ, zero, suc, ◌+◌, ◌*◌, ◌≤◌, ◌<◌, ◌≡◌, refl, sym, subst, Bool, true, false, Option, none, some,
  List, [], ◌∷◌, length, length-append, length-drop, get_elem?, get_elem?-lt, drop, slice,
  slice-in_range, arith, Runs, >>=-Runs, ◌>>=◌,
}
use mathlib.Core.Option.{some-injective}
use usb_video_class.Base.Bytes.{read_dw, read_sw, read_dw-in_range, read_sw-in_range}
use usb_video_class.Desc.{FrameDesc, FormatDesc, StreamingInterface}
use usb_video_class.Parse.{read_dws, append_one}
use usb_video_class.Parse.Streaming.{
  parse_vs_input_header, read_format, parse_vs_format_uncompressed, parse_vs_frame_format,
  parse_vs_format_mjpeg, change_last, add_frame, read_intervals, read_frame, append_frame,
  parse_vs_frame_uncompressed, parse_vs_frame_frame, read_patterns, parse_vs_still_image_frame,
  blank_format,
}

-- The run ends, and its result has a property.
abbrev pub Ends {ℓ} : {A : Type ℓ} → (A → Type ℓ) → Option A → Type ℓ
Ends {A} P o = (a : A) × (o ≡ some a) × P a

pub >>=-Ends {ℓ} :
    {A B : Type ℓ} {P : B → Type ℓ} (m : Option A) (f : A → Option B)
    → Runs m
    → ((a : A) → m ≡ some a → Ends P (f a))
    → Ends P (m >>= f)
>>=-Ends none f (a, e) k = cc
>>=-Ends (some a) f r k = k a refl

-- There is a format, once one was parsed.
abbrev pub Seen : Bool → List FormatDesc → Type 0
Seen false formats = Unit
Seen true formats = 0 < length formats

abbrev pub HasFormat : Bool → StreamingInterface → Type 0
HasFormat has s = Seen has s.format_descs

-- The bytes that the intervals at offset 26 take, and those of a still image block.
abbrev pub interval_bytes : ℕ → ℕ
interval_bytes zero = 12
interval_bytes (suc n) = 4 * suc n

append_one-Seen : (formats : List FormatDesc) (f : FormatDesc) → Seen true (append_one formats f)
append_one-Seen formats f = omega (arith, length-append formats (f ∷ []))

change_last-Seen :
    (change : FormatDesc → FormatDesc) (formats : List FormatDesc)
    → Seen true formats
    → Ends (Seen true) (change_last change formats)
unfolding change_last
change_last-Seen change [] h = absurd (omega (arith, h))
change_last-Seen change (f ∷ []) h = (_, refl, omega arith)
change_last-Seen change (f ∷ g ∷ fs) h =
    let (fs', run, h') = change_last-Seen change (g ∷ fs) (omega arith) in
    (f ∷ fs', rw run refl, omega arith)

set_formats-Ends :
    (s : StreamingInterface) (m : Option (List FormatDesc))
    → Ends (Seen true) m
    → Ends (HasFormat true) (m >>= λ formats. some (record s { format_descs = formats }))
set_formats-Ends s none (formats, e, h) = cc
set_formats-Ends s (some fs) (formats, e, h) =
    (_, refl, subst (Seen true) (sym (some-injective fs formats e)) h)

append_frame-Ends :
    (frame : FrameDesc) (s : StreamingInterface)
    → HasFormat true s
    → Ends (HasFormat true) (append_frame frame s)
unfolding append_frame
append_frame-Ends frame s h =
    set_formats-Ends s (change_last (add_frame frame) s.format_descs)
      (change_last-Seen (add_frame frame) s.format_descs h)

read_dws-Runs : (n : ℕ) (p : List ℕ) → 4 * n ≤ length p → Runs (read_dws n p)
unfolding read_dws
read_dws-Runs zero p h = (_, refl)
read_dws-Runs (suc n) p h = >>=-Runs (read_dw p 0) _ (read_dw-in_range p 0 (omega (arith, h))) λ d.
    >>=-Runs (read_dws n (drop 4 p)) _
      (read_dws-Runs n (drop 4 p) (omega (arith, h, length-drop 4 p))) λ ds. (_, refl)

read_patterns-Runs : (n i : ℕ) (p : List ℕ) → 4 * n ≤ length p → Runs (read_patterns n i p)
unfolding read_patterns
read_patterns-Runs zero i p h = (_, refl)
read_patterns-Runs (suc n) i p h =
    >>=-Runs (read_sw p 0) _ (read_sw-in_range p 0 (omega (arith, h))) λ width.
      >>=-Runs (read_sw p 2) _ (read_sw-in_range p 2 (omega (arith, h))) λ height.
        >>=-Runs (read_patterns n (suc i) (drop 4 p)) _
          (read_patterns-Runs n (suc i) (drop 4 p) (omega (arith, h, length-drop 4 p)))
          λ more. (_, refl)

module _ (block : List ℕ) where
  byte : (i : ℕ) → i < length block → Runs (get_elem? block i)
  byte = get_elem?-lt block

  word : (i : ℕ) → i + 4 ≤ length block → Runs (read_dw block i)
  word = read_dw-in_range block

  short : (i : ℕ) → i + 2 ≤ length block → Runs (read_sw block i)
  short = read_sw-in_range block

  pub input_header-Ends :
      (has : Bool) (s : StreamingInterface)
      → 10 ≤ length block
      → HasFormat has s
      → Ends (HasFormat has) (parse_vs_input_header block s)
  unfolding parse_vs_input_header
  input_header-Ends has s long h =
      >>=-Ends (get_elem? block 6) _ (byte 6 (omega (arith, long))) λ a _.
        >>=-Ends (get_elem? block 8) _ (byte 8 (omega (arith, long)))
          λ b _. >>=-Ends (get_elem? block 9) _ (byte 9 (omega (arith, long))) λ c _. (_, refl, h)

  read_format-Runs : (format : FormatDesc) → 27 ≤ length block → Runs (read_format block format)
  unfolding read_format
  read_format-Runs format long = >>=-Runs (get_elem? block 2) _ (byte 2 (omega (arith, long))) λ _.
      >>=-Runs (get_elem? block 3) _ (byte 3 (omega (arith, long))) λ _.
        >>=-Runs (slice block 5 16) _ (_, slice-in_range block 5 16 (omega (arith, long)))
          λ _. >>=-Runs (get_elem? block 21) _ (byte 21 (omega (arith, long))) λ _.
            >>=-Runs (get_elem? block 22) _ (byte 22 (omega (arith, long))) λ _.
              >>=-Runs (get_elem? block 23) _ (byte 23 (omega (arith, long))) λ _.
                >>=-Runs (get_elem? block 24) _ (byte 24 (omega (arith, long))) λ _.
                  >>=-Runs (get_elem? block 25) _ (byte 25 (omega (arith, long))) λ _.
                    >>=-Runs (get_elem? block 26) _ (byte 26 (omega (arith, long))) λ _. (_, refl)

  pub format_uncompressed-Ends :
      (s : StreamingInterface)
      → 27 ≤ length block
      → Ends (HasFormat true) (parse_vs_format_uncompressed block s)
  unfolding parse_vs_format_uncompressed
  format_uncompressed-Ends s long =
      >>=-Ends (read_format block blank_format) _ (read_format-Runs blank_format long)
        λ f _. (_, refl, append_one-Seen s.format_descs f)

  pub frame_format-Ends :
      (s : StreamingInterface)
      → 28 ≤ length block
      → Ends (HasFormat true) (parse_vs_frame_format block s)
  unfolding parse_vs_frame_format
  frame_format-Ends s long = >>=-Ends (get_elem? block 4) _ (byte 4 (omega (arith, long))) λ n _.
      >>=-Ends (read_format block (record blank_format { b_num_frame_descriptors = n })) _
        (read_format-Runs (record blank_format { b_num_frame_descriptors = n })
          (omega (arith, long)))
        λ f _.
          >>=-Ends (get_elem? block 27) _ (byte 27 (omega (arith, long)))
            λ v _. (_, refl, append_one-Seen s.format_descs (record f { b_variable_size = v }))

  pub format_mjpeg-Ends :
      (s : StreamingInterface)
      → 11 ≤ length block
      → Ends (HasFormat true) (parse_vs_format_mjpeg block s)
  unfolding parse_vs_format_mjpeg
  format_mjpeg-Ends s long = >>=-Ends (get_elem? block 2) _ (byte 2 (omega (arith, long))) λ _ _.
      >>=-Ends (get_elem? block 3) _ (byte 3 (omega (arith, long))) λ _ _.
        >>=-Ends (get_elem? block 5) _ (byte 5 (omega (arith, long))) λ _ _.
          >>=-Ends (get_elem? block 6) _ (byte 6 (omega (arith, long))) λ _ _.
            >>=-Ends (get_elem? block 7) _ (byte 7 (omega (arith, long))) λ _ _.
              >>=-Ends (get_elem? block 8) _ (byte 8 (omega (arith, long))) λ _ _.
                >>=-Ends (get_elem? block 9) _ (byte 9 (omega (arith, long))) λ _ _.
                  >>=-Ends (get_elem? block 10) _ (byte 10 (omega (arith, long)))
                    λ _ _. (_, refl, append_one-Seen s.format_descs _)

  read_intervals-Runs :
      (n : ℕ) (frame : FrameDesc)
      → 26 + interval_bytes n ≤ length block
      → Runs (read_intervals n block frame)
  unfolding read_intervals
  read_intervals-Runs zero frame long =
      >>=-Runs (read_dw block 26) _ (word 26 (omega (arith, long))) λ _.
        >>=-Runs (read_dw block 30) _ (word 30 (omega (arith, long)))
          λ _. >>=-Runs (read_dw block 34) _ (word 34 (omega (arith, long))) λ _. (_, refl)
  read_intervals-Runs (suc n) frame long =
      >>=-Runs (read_dws (suc n) (drop 26 block)) _
        (read_dws-Runs (suc n) (drop 26 block) (omega (arith, long, length-drop 26 block)))
        λ _. (_, refl)

  read_frame-Runs : 17 ≤ length block → Runs (read_frame block)
  unfolding read_frame
  read_frame-Runs long = >>=-Runs (get_elem? block 2) _ (byte 2 (omega (arith, long))) λ _.
      >>=-Runs (get_elem? block 3) _ (byte 3 (omega (arith, long))) λ _.
        >>=-Runs (get_elem? block 4) _ (byte 4 (omega (arith, long))) λ _.
          >>=-Runs (read_sw block 5) _ (short 5 (omega (arith, long))) λ _.
            >>=-Runs (read_sw block 7) _ (short 7 (omega (arith, long))) λ _.
              >>=-Runs (read_dw block 9) _ (word 9 (omega (arith, long)))
                λ _. >>=-Runs (read_dw block 13) _ (word 13 (omega (arith, long))) λ _. (_, refl)

  pub frame_uncompressed-Ends :
      (n : ℕ) (s : StreamingInterface)
      → get_elem? block 25 ≡ some n
      → 26 + interval_bytes n ≤ length block
      → HasFormat true s
      → Ends (HasFormat true) (parse_vs_frame_uncompressed block s)
  unfolding parse_vs_frame_uncompressed
  frame_uncompressed-Ends n s count long h =
      >>=-Ends (read_frame block) _ (read_frame-Runs (omega (arith, long))) λ frame _.
        >>=-Ends (read_dw block 17) _ (word 17 (omega (arith, long))) λ size _.
          >>=-Ends (read_dw block 21) _ (word 21 (omega (arith, long))) λ interval _. rw count (
            >>=-Ends (read_intervals n block _) _ (read_intervals-Runs n _ long)
              λ full _. append_frame-Ends full s h)

  pub frame_frame-Ends :
      (n : ℕ) (s : StreamingInterface)
      → get_elem? block 21 ≡ some n
      → 26 + interval_bytes n ≤ length block
      → HasFormat true s
      → Ends (HasFormat true) (parse_vs_frame_frame block s)
  unfolding parse_vs_frame_frame
  frame_frame-Ends n s count long h =
      >>=-Ends (read_frame block) _ (read_frame-Runs (omega (arith, long))) λ frame _.
        >>=-Ends (read_dw block 17) _ (word 17 (omega (arith, long))) λ interval _. rw count (
          >>=-Ends (read_dw block 22) _ (word 22 (omega (arith, long))) λ line _.
            >>=-Ends (read_intervals n block _) _ (read_intervals-Runs n _ long)
              λ full _. append_frame-Ends full s h)

  pub still_image-Ends :
      (n c : ℕ) (s : StreamingInterface)
      → get_elem? block 4 ≡ some n
      → get_elem? block (5 + 4 * n) ≡ some c
      → 6 + 4 * n + c ≤ length block
      → HasFormat true s
      → Ends (HasFormat true) (parse_vs_still_image_frame block s)
  unfolding parse_vs_still_image_frame
  still_image-Ends n c s patterns compressions long h =
      >>=-Ends (get_elem? block 2) _ (byte 2 (omega (arith, long))) λ _ _.
        >>=-Ends (get_elem? block 3) _ (byte 3 (omega (arith, long))) λ _ _.
          rw (patterns, compressions)
            (>>=-Ends (read_patterns n 1 (drop 5 block)) _
              (read_patterns-Runs n 1 (drop 5 block) (omega (arith, long, length-drop 5 block)))
              λ _ _.
                >>=-Ends (slice block (6 + 4 * n) c) _
                  (_, slice-in_range block (6 + 4 * n) c (omega (arith, long)))
                  λ _ _.
                    set_formats-Ends s (change_last _ s.format_descs)
                      (change_last-Seen _ s.format_descs h))
