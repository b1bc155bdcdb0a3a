-- ===== src/Exif/Entry/Balance.antt =====
-- The blocks that `jpeg_exif_read_entry` leaves on the heap.
use fuzzuf_cc.Prelude.{
  ◌∷◌, List, ℕ, zero, suc, ◌+◌, ◌%◌, ◌^◌, ◌==◌, refl, Bool, true, false, Option, none, some, length,
  leb, ltb,
}
use fuzzuf_cc.Prelude.Effect.{fault, ◌>>=◌, pure}
use fuzzuf_cc.Exif.Types.{
  srational, rational, dfloat, to_datatype, float, slong, long, sshort, short, ascii, undefined,
  sbyte, byte, Datatype, TiffData, Util,
}
use fuzzuf_cc.Exif.Heap.{put_block, load, Allocator}
use fuzzuf_cc.Exif.Heap.Balance.{
  got-Keeps, option-Keeps, pure-Steady, Leaves_if, Keeps, bind-Keeps, then-Keeps, if-Keeps,
  if_fault-Leaves, malloc-Keeps, free-Keeps, print-Keeps, load-Keeps, store-Keeps, put_block-Keeps,
  pure-Keeps,
}
use fuzzuf_cc.Exif.Entry.{
  Block, rounds, copy_pair, copy_string, copy_bytes, copy_data, data_source, jpeg_exif_read_entry,
  read_data, fill_data,
}

-- A run that leaves the blocks on the heap as they are.
abbrev pub Steady : {A : Type 0} → List ℕ → Util A → Type 0
Steady n m = Keeps n (λ _. n) m

module _ {n : List ℕ} where
  rounds-Steady :
      (body : ℕ → Block → Util Block) (k i : ℕ) (block : Block)
      → ((j : ℕ) (b : Block) → Steady n (body j b))
      → Steady n (rounds body k i block)
  unfolding rounds
  rounds-Steady body zero i block h = pure-Steady
  rounds-Steady body (suc k) i block h =
      bind-Keeps (h i block) (λ b. rounds-Steady body k (i + 1) b h)

  copy_string-Steady : (src k i : ℕ) (block : Block) → Steady n (copy_string src k i block)
  unfolding copy_string
  copy_string-Steady src zero i block = pure-Steady
  copy_string-Steady src (suc k) i block = bind-Keeps (load-Keeps 1 (src + i)) (λ c.
      bind-Keeps (put_block-Keeps 1 i c block)
        (λ b. stop (c == 0) b (copy_string-Steady src k (i + 1) b)))
    where
      stop :
          {n : List ℕ} (ended : Bool) (block : Block) {m : Util Block}
          → Steady n m
          → Steady n (elim ended [ true ↦ pure block | false ↦ m ])
      stop true block h = pure-Steady
      stop false block h = h

  load_put-Steady :
      (size a o : ℕ) (c : ℕ → ℕ) (block : Block)
      → Steady n (load size a >>= λ v. put_block size o (c v) block)
  load_put-Steady size a o c block =
      bind-Keeps (load-Keeps size a) (λ v. put_block-Keeps size o (c v) block)

  copy_bytes-Steady : (src size : ℕ) (block : Block) → Steady n (copy_bytes src size block)
  copy_bytes-Steady src size block = record {
    leaves = λ s e.
        Leaves_if (leb (src + size) (length s.tiff)) _ (fault s) _
          (if_fault-Leaves (leb size (length block)) _ s s _ e) tt;
  }

  copy_pair-Steady :
      (is_be : Bool) (src i : ℕ) (block : Block) → Steady n (copy_pair is_be src i block)
  copy_pair-Steady is_be src i block =
      bind-Keeps (load_put-Steady 4 _ _ _ block) (λ new. load_put-Steady 4 _ _ _ new)

  copy_data-Steady :
      (kind : Datatype) (is_be : Bool) (src size count : ℕ) (block : Block)
      → Steady n (copy_data kind is_be src size count block)
  unfolding copy_data
  copy_data-Steady byte is_be src size count block = copy_bytes-Steady src size block
  copy_data-Steady sbyte is_be src size count block = copy_bytes-Steady src size block
  copy_data-Steady undefined is_be src size count block = copy_bytes-Steady src size block
  copy_data-Steady ascii is_be src size count block = copy_string-Steady src count 0 block
  copy_data-Steady short is_be src size count block =
      rounds-Steady _ count 0 block (λ j b. load_put-Steady 2 _ _ _ b)
  copy_data-Steady sshort is_be src size count block =
      rounds-Steady _ count 0 block (λ j b. load_put-Steady 2 _ _ _ b)
  copy_data-Steady long is_be src size count block =
      rounds-Steady _ count 0 block (λ j b. load_put-Steady 4 _ _ _ b)
  copy_data-Steady slong is_be src size count block =
      rounds-Steady _ count 0 block (λ j b. load_put-Steady 4 _ _ _ b)
  copy_data-Steady float is_be src size count block =
      rounds-Steady _ count 0 block (λ j b. load_put-Steady 4 _ _ _ b)
  copy_data-Steady dfloat is_be src size count block =
      rounds-Steady _ count 0 block (λ j b. load_put-Steady 8 _ _ _ b)
  copy_data-Steady rational is_be src size count block =
      rounds-Steady _ count 0 block (copy_pair-Steady is_be src)
  copy_data-Steady srational is_be src size count block =
      rounds-Steady _ count 0 block (copy_pair-Steady is_be src)

  data_source-Steady :
      (pos : ℕ) (is_be : Bool) (len_ifd size : ℕ) → Steady n (data_source pos is_be len_ifd size)
  unfolding data_source
  data_source-Steady pos is_be len_ifd size =
      if-Keeps (leb size 4)
        (then-Keeps
          (if-Keeps is_be (bind-Keeps (load-Keeps 4 (pos + 8)) (λ v. store-Keeps 4 (pos + 8) _))
            (pure-Steady))
          (pure-Steady))
        (bind-Keeps (load-Keeps 4 (pos + 8)) (λ offset.
          if-Keeps (ltb len_ifd ((offset + size) % 2 ^ 32))
            (then-Keeps (print-Keeps _) (pure-Steady)) (pure-Steady)))

-- With an entry, its two blocks.
abbrev pub with_entry : List ℕ → Option TiffData → List ℕ
with_entry n none = n
with_entry n (some t) = t.ptr ∷ t.address ∷ n

module _ (allocator : Allocator) {n : List ℕ} where
  fill_data-Keeps :
      (address ptr pos : ℕ) (is_be : Bool) (len_ifd : ℕ) (kind : Datatype) (count : ℕ)
      → Keeps
          (ptr ∷ address ∷ n)
          (with_entry n)
          (fill_data allocator address ptr pos is_be len_ifd kind count)
  fill_data-Keeps address ptr pos is_be len_ifd kind count =
      bind-Keeps (data_source-Steady pos is_be len_ifd _) (λ source.
        option-Keeps source
          (then-Keeps (then-Keeps (free-Keeps ptr) (free-Keeps address)) (pure-Keeps refl))
          (λ src.
            bind-Keeps (copy_data-Steady kind is_be src _ count _) (λ block. pure-Keeps refl)))

  read_data-Keeps :
      (pos : ℕ) (is_be : Bool) (len_ifd : ℕ) (kind : Datatype)
      → Keeps n (with_entry n) (read_data allocator pos is_be len_ifd kind)
  read_data-Keeps pos is_be len_ifd kind = bind-Keeps (malloc-Keeps allocator _) (λ got_data.
      got-Keeps got_data (then-Keeps (print-Keeps _) (pure-Keeps refl)) (λ address.
        bind-Keeps (load-Keeps 4 (pos + 4)) (λ count.
          bind-Keeps (malloc-Keeps allocator _) (λ got_block.
            got-Keeps got_block
              (then-Keeps (then-Keeps (print-Keeps _) (free-Keeps address)) (pure-Keeps refl))
              (λ ptr. fill_data-Keeps address ptr pos is_be len_ifd kind count)))))

  pub jpeg_exif_read_entry-Keeps :
      (pos : ℕ) (is_be : Bool) (len_ifd : ℕ)
      → Keeps n (with_entry n) (jpeg_exif_read_entry allocator pos is_be len_ifd)
  unfolding jpeg_exif_read_entry
  jpeg_exif_read_entry-Keeps pos is_be len_ifd = bind-Keeps (load-Keeps 2 (pos + 2)) (λ kind.
      option-Keeps (to_datatype kind) (then-Keeps (print-Keeps _) (pure-Keeps refl))
        (λ k. read_data-Keeps pos is_be len_ifd k))
