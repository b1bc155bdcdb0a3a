-- ===== src/Exif/App1/Balance.antt =====
-- The blocks that `jpeg_custom_app1` leaves on the heap.
use fuzzuf_cc.Prelude.{◌∷◌, true, drop, take, ℕ, ◌+◌, ◌-◌, ◌==◌, Bool, List, length, leb, ltb}
use fuzzuf_cc.Prelude.Effect.{aborted}
use fuzzuf_cc.Exif.Types.{exif_identifier, exif_identifier_len, Util}
use fuzzuf_cc.Exif.File.{fread}
use fuzzuf_cc.Exif.Heap.{Allocator}
use fuzzuf_cc.Exif.Heap.Balance.{
  Keeps, Leaves_if, bind-Keeps, then-Keeps, if-Keeps, malloc-Keeps, got-Keeps, free-Keeps,
  print-Keeps, load-Keeps, pure-Steady, option-Keeps,
}
use fuzzuf_cc.Exif.Entry.Balance.{Steady}
use fuzzuf_cc.Exif.Ifd.Balance.{order_is_be-Steady, convert_field-Steady, jpeg_exif_read_ifd-Steady}
use fuzzuf_cc.Exif.App1.{
  read_len_field, set_tiff, read_tiff, use_segment, read_segment, assert_length, jpeg_custom_app1,
  same_bytes,
}

pub fread-Steady : {n : List ℕ} (size : ℕ) → Steady n (fread size)
fread-Steady size = record {
  leaves = λ s e. Leaves_if (leb (s.position + size) (length s.file)) _ _ _ e e;
}

pub read_len_field-Steady :
    {n : List ℕ} {then_with : ℕ → Util Bool}
    → ((len_field : ℕ) → Steady n (then_with len_field))
    → Steady n (read_len_field then_with)
read_len_field-Steady h =
    bind-Keeps (fread-Steady 2)
      (λ answer. option-Keeps answer (then-Keeps (print-Keeps _) pure-Steady) (λ bytes. h _))

set_tiff-Steady : {n : List ℕ} (bytes : List ℕ) → Steady n (set_tiff bytes)
set_tiff-Steady bytes = record { leaves = λ s e. e }

module _ (allocator : Allocator) (fuel : ℕ) {n : List ℕ} where
  read_tiff-Keeps :
      (buffer len_ifd : ℕ) → Keeps (buffer ∷ n) (λ _. n) (read_tiff allocator fuel buffer len_ifd)
  read_tiff-Keeps buffer len_ifd =
      bind-Keeps
        (then-Keeps
          (bind-Keeps order_is_be-Steady (λ is_be.
            if-Keeps is_be (then-Keeps (convert_field-Steady 2 2 _) (convert_field-Steady 4 4 _))
              pure-Steady))
          (load-Keeps 2 2))
        (λ kind.
          if-Keeps (kind == _)
            (then-Keeps
              (then-Keeps
                (bind-Keeps (load-Keeps 4 4) (λ ifd_offset.
                  jpeg_exif_read_ifd-Steady allocator fuel (buffer ∷ n) ifd_offset len_ifd))
                (free-Keeps buffer))
              pure-Steady)
            (then-Keeps (then-Keeps (print-Keeps _) (free-Keeps buffer)) pure-Steady))

  use_segment-Keeps :
      (len_field buffer : ℕ) (bytes : List ℕ)
      → Keeps (buffer ∷ n) (λ _. n) (use_segment allocator fuel len_field buffer bytes)
  use_segment-Keeps len_field buffer bytes =
      if-Keeps (same_bytes (take exif_identifier_len bytes) exif_identifier)
        (then-Keeps (set_tiff-Steady (drop exif_identifier_len bytes))
          (read_tiff-Keeps buffer (len_field - 2 - exif_identifier_len)))
        (then-Keeps (free-Keeps buffer) (pure-Steady {a = true}))

  read_segment-Steady : (len_field : ℕ) → Steady n (read_segment allocator fuel len_field)
  read_segment-Steady len_field = bind-Keeps (malloc-Keeps allocator (len_field - 2)) (λ got.
      got-Keeps got (then-Keeps (print-Keeps _) pure-Steady) (λ buffer.
        bind-Keeps (fread-Steady (len_field - 2)) (λ answer.
          option-Keeps answer
            (then-Keeps (then-Keeps (print-Keeps _) (free-Keeps buffer)) pure-Steady)
            (λ bytes. use_segment-Keeps len_field buffer bytes))))

  assert_length-Steady : (len_field : ℕ) → Steady n (assert_length allocator fuel len_field)
  assert_length-Steady len_field = record {
    leaves = λ s e.
        Leaves_if (ltb _ len_field) _ (aborted s) _ ((read_segment-Steady len_field).leaves s e) tt;
  }

  pub jpeg_custom_app1-Steady : Steady n (jpeg_custom_app1 allocator fuel)
  unfolding jpeg_custom_app1
  jpeg_custom_app1-Steady = read_len_field-Steady assert_length-Steady
