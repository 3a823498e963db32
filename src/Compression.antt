-- ===== src/Compression.antt =====
-- RiftNet/src/compression/Compressor: the wrapper of the RiftCompress library, whose source is not
-- in the repository.
use rift_net.Base.{ℕ, Bool, true, if◌then◌else◌, Option, none, some, List, [], ◌≡◌}

-- `none` is an exception.
pub record CompressionLibrary : Type 0 where
  pub compress : List ℕ → Option (List ℕ)
  pub decompress : List ℕ → Option (List ℕ)

-- Is the pointer to the library's compressor set? (Its construction may fail.)
pub record Compressor : Type 0 where
  pub is_ready : Bool

-- The empty vector stands for a failure.
abbrev pub or_empty : Option (List ℕ) → List ℕ
or_empty none = []
or_empty (some out) = out

module _ (library : CompressionLibrary) where
  unfoldable pub compress : Compressor → List ℕ → List ℕ
  compress c plain = if c.is_ready then or_empty (library.compress plain) else []

  unfoldable pub decompress : Compressor → List ℕ → List ℕ
  decompress c packed = if c.is_ready then or_empty (library.decompress packed) else []

-- What the library promises: it compresses everything, and decompression gives it back.
pub record CompressionLaws (library : CompressionLibrary) : Type 0 where
  pub round_trip :
      (plain : List ℕ)
      → (packed : List ℕ) × (library.compress plain ≡ some packed)
        × (library.decompress packed ≡ some plain)

-- Between two working compressors nothing is lost.
pub decompress-compress :
    (library : CompressionLibrary) (a b : Compressor) (plain : List ℕ)
    → CompressionLaws library
    → a.is_ready ≡ true
    → b.is_ready ≡ true
    → decompress library b (compress library a plain) ≡ plain
unfolding compress decompress
decompress-compress library a b plain laws ra rb =
    let (packed, packs, unpacks) = laws.round_trip plain in rw (ra, rb, packs, unpacks)
