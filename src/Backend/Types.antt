-- ===== src/Backend/Types.antt =====
-- stream.c and lrzip_private.h: a block in a compression or a decompression thread, what the threads
-- share, and the libraries that they call.
use lrzip.Common.{ℕ, Bool, Option, List}

-- `CTYPE_*`
abbrev pub ctype_none : ℕ
ctype_none = 3

abbrev pub ctype_bzip2 : ℕ
ctype_bzip2 = 4

abbrev pub ctype_lzo : ℕ
ctype_lzo = 5

abbrev pub ctype_lzma : ℕ
ctype_lzma = 6

abbrev pub ctype_gzip : ℕ
ctype_gzip = 7

abbrev pub ctype_zpaq : ℕ
ctype_zpaq = 8

abbrev pub ctype_lzma_bcj : ℕ
ctype_lzma_bcj = 9

abbrev pub ctype_lzma_delta4 : ℕ
ctype_lzma_delta4 = 14

-- `LRZ_FILTER_*`
abbrev pub lrz_filter_none : ℕ
lrz_filter_none = 0

abbrev pub lrz_filter_x86 : ℕ
lrz_filter_x86 = 1

abbrev pub lrz_filter_max : ℕ
lrz_filter_max = 6

-- `struct compress_thread`: the block and, once it is compressed, its type and length.
pub record CompressThread : Type 0 where
  pub s_buf : List ℕ
  pub s_len : ℕ
  pub c_type : ℕ
  pub c_len : ℕ

-- `struct uncomp_thread`: a block as it was stored.
pub record UncompThread : Type 0 where
  pub s_buf : List ℕ
  pub c_len : ℕ
  pub u_len : ℕ
  pub c_type : ℕ

-- The fields of `struct rzip_control` that the threads share under `control_lock`.
pub record SharedControl : Type 0 where
  pub lz4_test_done : Bool
  pub lz4_compressible : Bool
  pub lzma_dictsize : ℕ
  pub lzma_properties : List ℕ
  pub lzma_prop_set : Bool
  pub magic_written : Bool

-- `control->filter_mode`: 0, a kind, or a negative number.
pub data FilterMode : Type 0 where
  off : FilterMode
  fixed : (kind : ℕ) → FilterMode
  auto : FilterMode

pub data Backend : Type 0 where
  no_compress lzma lzo bzip2 gzip zpaq : Backend

-- The fields of `struct rzip_control` that stay as they are set, and the chunk's filter.
pub record Settings : Type 0 where
  pub backend : Backend
  pub lz4_test : Bool
  pub page_size : ℕ
  pub compression_level : ℕ
  pub ultra : Bool
  pub threads : ℕ
  pub filter_mode : FilterMode
  pub chunk_filter : ℕ
  pub tmp_outbuf : Bool
  pub blocks_done : ℕ

-- What `BZ2_bzBuffToBuffCompress` and `compress2` return: the bytes with `BZ_OK` or `Z_OK`, a full
-- output buffer, or another error.
pub data Coded : Type 0 where
  coded : (bytes : List ℕ) → Coded
  outbuff_full : Coded
  failed : Coded

-- What `LzmaCompress` returns: the bytes and the properties with `SZ_OK`, or an error.
pub data LzmaRet : Type 0 where
  sz_ok : (bytes props : List ℕ) → LzmaRet
  sz_error_mem : LzmaRet
  sz_error_output_eof : (len : ℕ) → LzmaRet
  sz_error : LzmaRet

-- What a branch converter leaves: the bytes, how many of them are final, and the x86 state.
pub record Branch : Type 0 where
  pub bytes : List ℕ
  pub final : ℕ
  pub state : ℕ

-- The libraries; `fb` is `none` for -1, the library's own choice. A decompressor returns `none` on
-- its errors, one of which is to be given less room than the bytes need.
pub record Libs : Type 0 where
  pub lz4_compress : (size : ℕ) → List ℕ → ℕ
  pub zpaq_compress : (level : ℕ) → List ℕ → List ℕ
  pub zpaq_decompress : (room : ℕ) → List ℕ → Option (List ℕ)
  pub bz_compress : (level room : ℕ) → List ℕ → Coded
  pub bz_decompress : (room : ℕ) → List ℕ → Option (List ℕ)
  pub z_compress2 : (level room : ℕ) → List ℕ → Coded
  pub z_uncompress : (room : ℕ) → List ℕ → Option (List ℕ)
  pub lzma_compress : (level dictsize : ℕ) (fb : Option ℕ) (num_threads room : ℕ) → List ℕ → LzmaRet
  pub lzma_uncompress : (props : List ℕ) (room : ℕ) → List ℕ → Option (List ℕ)
  pub lzo1x_1_compress : List ℕ → List ℕ
  pub lzo1x_decompress_safe : (room : ℕ) → List ℕ → Option (List ℕ)
  pub branch_x86 : (encode : Bool) (pc state : ℕ) → List ℕ → Branch
  pub branch_arm64 : (encode : Bool) (pc : ℕ) → List ℕ → Branch
  pub delta : (encode : Bool) (distance : ℕ) → List ℕ → List ℕ

-- Whether the system grants a request for so many bytes.
abbrev pub Malloc : Type 0
Malloc = ℕ → Bool

-- What a back end returns (0 is `true`, -1 is `false`), and what it leaves.
pub record Ret : Type 0 where
  pub ok : Bool
  pub cti : CompressThread
  pub control : SharedControl
