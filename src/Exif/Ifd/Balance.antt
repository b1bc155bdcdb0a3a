-- ===== src/Exif/Ifd/Balance.antt =====
-- The blocks that `jpeg_exif_read_ifd` leaves on the heap.
use fuzzuf_cc.Bytes.{from_bytes}
use fuzzuf_cc.Prelude.{
  ◌∷◌, List, drop, take, ℕ, zero, suc, ◌+◌, ◌-◌, ◌*◌, ◌%◌, ◌^◌, ◌==◌, Bool, Option, none, some,
  length, leb,
}
use fuzzuf_cc.Prelude.Effect.{aborted, ok, fault}
use fuzzuf_cc.Exif.Types.{TiffData, Util, Exif, Format, Title, title}
use fuzzuf_cc.Exif.Types
use fuzzuf_cc.Exif.Heap.{Allocator}
use fuzzuf_cc.Exif.Heap.Balance.{
  Leaves_option, Leaves_if, Keeps, bind-Keeps, then-Keeps, if-Keeps, free-Keeps, print-Keeps,
  load-Keeps, store-Keeps, pure-Steady,
}
use fuzzuf_cc.Exif.Entry.{Block}
use fuzzuf_cc.Exif.Entry.Balance.{Steady, with_entry, jpeg_exif_read_entry-Keeps}
use fuzzuf_cc.Exif.Show.{
  value_at, show_string, show_numbers, show_fractions, show_data, jpeg_exif_show_entry, c_string,
  written,
}
use fuzzuf_cc.Exif.Ifd.{
  order_is_be, convert_field, convert_entry, follow, use_entry, entry_at, read_entries,
  jpeg_exif_read_ifd, is_directory, entry_limit, entry_position, is_pointer,
}

module _ {n : List ℕ} where
  value_at-Steady : (size o : ℕ) (block : Block) → Steady n (value_at size o block)
  unfolding value_at
  value_at-Steady size o block = record {
    leaves = λ s e.
        Leaves_if (leb (o + size) (length block)) _ (fault s) _
          (Leaves_option (written (take size (drop o block))) (fault s) (λ bs. ok (from_bytes bs) s)
            _ tt (λ bs. e))
          tt;
  }

  show_string-Steady : (block : Block) → Steady n (show_string block)
  show_string-Steady block = record {
    leaves = λ s e. Leaves_option (c_string block) (fault s) _ _ tt (λ text.
        (then-Keeps (print-Keeps (Types.string text)) (print-Keeps Types.newline)).leaves s e);
  }

  show_numbers-Steady :
      (format : Format) (width k i : ℕ) (block : Block)
      → Steady n (show_numbers format width k i block)
  unfolding show_numbers
  show_numbers-Steady format width zero i block = print-Keeps _
  show_numbers-Steady format width (suc k) i block =
      bind-Keeps (value_at-Steady width (width * i) block)
        (λ v. then-Keeps (print-Keeps _) (show_numbers-Steady format width k (i + 1) block))

  show_fractions-Steady :
      (format : Format) (k i : ℕ) (block : Block) → Steady n (show_fractions format k i block)
  unfolding show_fractions
  show_fractions-Steady format zero i block = print-Keeps _
  show_fractions-Steady format (suc k) i block = bind-Keeps (value_at-Steady 4 _ block) (λ a.
      bind-Keeps (value_at-Steady 4 _ block)
        (λ b. then-Keeps (print-Keeps _) (show_fractions-Steady format k (i + 1) block)))

  show_kind-Steady :
      (address ptr : ℕ) (kind : Types.Datatype) (count : ℕ) (block : Block)
      → Steady n (
          show_data
            record { address = address; ptr = ptr; kind = kind; count = count; block = block })
  unfolding show_data
  show_kind-Steady address ptr Types.ascii count block = show_string-Steady block
  show_kind-Steady address ptr Types.sbyte count block = show_numbers-Steady _ 1 count 0 block
  show_kind-Steady address ptr Types.byte count block = show_numbers-Steady _ 1 count 0 block
  show_kind-Steady address ptr Types.sshort count block = show_numbers-Steady _ 2 count 0 block
  show_kind-Steady address ptr Types.short count block = show_numbers-Steady _ 2 count 0 block
  show_kind-Steady address ptr Types.slong count block = show_numbers-Steady _ 4 count 0 block
  show_kind-Steady address ptr Types.long count block = show_numbers-Steady _ 4 count 0 block
  show_kind-Steady address ptr Types.float count block = show_numbers-Steady _ 4 count 0 block
  show_kind-Steady address ptr Types.dfloat count block = show_numbers-Steady _ 8 count 0 block
  show_kind-Steady address ptr Types.srational count block = show_fractions-Steady _ count 0 block
  show_kind-Steady address ptr Types.rational count block = show_fractions-Steady _ count 0 block
  show_kind-Steady address ptr Types.undefined count block = print-Keeps _

  jpeg_exif_show_entry-Steady : (tag : ℕ) (t : TiffData) → Steady n (jpeg_exif_show_entry tag t)
  unfolding jpeg_exif_show_entry
  jpeg_exif_show_entry-Steady tag t =
      then-Keeps (print-Keeps _) (show_kind-Steady t.address t.ptr t.kind t.count t.block)

  pub order_is_be-Steady : Steady n order_is_be
  order_is_be-Steady = bind-Keeps (load-Keeps 2 0) (λ order. pure-Steady)

  pub convert_field-Steady : (size o : ℕ) (c : ℕ → ℕ) → Steady n (convert_field size o c)
  convert_field-Steady size o c = bind-Keeps (load-Keeps size o) (λ v. store-Keeps size o (c v))

  convert_entry-Steady : (is_be : Bool) (pos : ℕ) → Steady n (convert_entry is_be pos)
  convert_entry-Steady is_be pos =
      if-Keeps is_be
        (then-Keeps
          (then-Keeps
            (then-Keeps (convert_field-Steady 2 pos _) (convert_field-Steady 2 (pos + 2) _))
            (convert_field-Steady 4 (pos + 4) _))
          (convert_field-Steady 4 (pos + 8) _))
        pure-Steady

-- A directory is read with the same blocks after as before.
abbrev pub Childs : (ℕ → Util Bool) → Type 0
Childs child = (n : List ℕ) (o : ℕ) → Steady n (child o)

follow-Steady :
    (child : ℕ → Util Bool) (n : List ℕ) (t : TiffData) → Childs child → Steady n (follow child t)
follow-Steady child n t h = record {
  leaves = λ s e.
      Leaves_if (is_pointer t) _ (aborted s) _
        ((bind-Keeps (value_at-Steady 4 0 t.block)
            (λ offset. then-Keeps (h n offset) pure-Steady)).leaves
          s e)
        tt;
}

-- With an entry there are its two blocks to free.
entry-Steady :
    {n : List ℕ} (entry : Option TiffData) {m : Util Bool} {k : TiffData → Util Bool}
    → Steady n m
    → ((t : TiffData) → Keeps (t.ptr ∷ t.address ∷ n) (λ _. n) (k t))
    → Keeps (with_entry n entry) (λ _. n) (elim entry [ none ↦ m | some t ↦ k t ])
entry-Steady none h h' = h
entry-Steady (some t) h h' = h' t

use_entry-Steady :
    (child : ℕ → Util Bool) (n : List ℕ) (tag : ℕ) (t : TiffData)
    → Childs child
    → Steady n (use_entry child tag t)
use_entry-Steady child n tag t h =
    if-Keeps (is_directory tag) (follow-Steady child n t h) (jpeg_exif_show_entry-Steady tag t)

module _ (allocator : Allocator) where
  entry_at-Steady :
      (child : ℕ → Util Bool) (n : List ℕ) (len_ifd pos : ℕ) (rest : Util Bool)
      → Childs child
      → Steady n rest
      → Steady n (entry_at allocator child len_ifd pos rest)
  entry_at-Steady child n len_ifd pos rest h h' = bind-Keeps order_is_be-Steady (λ is_be.
      bind-Keeps
        (then-Keeps (convert_entry-Steady is_be pos)
          (jpeg_exif_read_entry-Keeps allocator pos is_be len_ifd))
        (λ entry. entry-Steady entry pure-Steady (λ t. bind-Keeps (load-Keeps 2 pos) (λ tag.
          then-Keeps
            (then-Keeps
              (then-Keeps (use_entry-Steady child (t.ptr ∷ t.address ∷ n) tag t h)
                (free-Keeps t.ptr))
              (free-Keeps t.address))
            h'))))

  read_entries-Steady :
      (child : ℕ → Util Bool) (n : List ℕ) (len_ifd ifd_offset k i : ℕ) (next : Util Bool)
      → Childs child
      → Steady n next
      → Steady n (read_entries allocator child len_ifd ifd_offset k i next)
  unfolding read_entries
  read_entries-Steady child n len_ifd ifd_offset zero i next h h' = h'
  read_entries-Steady child n len_ifd ifd_offset (suc k) i next h h' =
      if-Keeps (leb (entry_limit len_ifd) (entry_position ifd_offset i))
        (then-Keeps (print-Keeps _) pure-Steady)
        (entry_at-Steady child n len_ifd _ _ h
          (read_entries-Steady child n len_ifd ifd_offset k (i + 1) next h h'))

  pub jpeg_exif_read_ifd-Steady :
      (fuel : ℕ) (n : List ℕ) (ifd_offset len_ifd : ℕ)
      → Steady n (jpeg_exif_read_ifd allocator fuel ifd_offset len_ifd)
  unfolding jpeg_exif_read_ifd
  jpeg_exif_read_ifd-Steady zero n ifd_offset len_ifd = record { leaves = λ s e. tt }
  jpeg_exif_read_ifd-Steady (suc fuel) n ifd_offset len_ifd =
      let child : Childs (λ offset. jpeg_exif_read_ifd allocator fuel offset len_ifd) =
        λ m o. jpeg_exif_read_ifd-Steady fuel m o len_ifd in
      if-Keeps (leb ((len_ifd + 2 ^ 32 - 4) % 2 ^ 32) ifd_offset)
        (then-Keeps (print-Keeps _) pure-Steady)
        (bind-Keeps (load-Keeps 2 ifd_offset) (λ field. bind-Keeps order_is_be-Steady (λ is_be.
          read_entries-Steady _ n len_ifd ifd_offset _ 0 _ child (
            bind-Keeps (load-Keeps 4 _) (λ offset.
              if-Keeps (offset == 0) pure-Steady
                (bind-Keeps order_is_be-Steady (λ be. child n _)))))))
