-- ===== src/Backend/Tests/Toy.antt =====
-- Libraries that undo themselves: a block of zeros is kept as its length, any other whole.
use lrzip.Common.{
  ℕ, zero, suc, ◌≤◌, ◌≡◌, refl, ap, sym, arith, Bool, true, false, ◌&&◌, Option, none, some, List,
  [], ◌∷◌, length, get_or, ◌^◌, replicate, ◌==◌, if◌then◌else◌, Bool-cases, inl, inr,
}
use lrzip.Backend.Types.{
  Libs, Settings, SharedControl, FilterMode, fixed, lzma, Coded, coded, LzmaRet, sz_ok,
}
use lrzip.Backend.Packed.{Inverse}
use lrzip.Backend.Restore.Lzma.{IsMode}
use lrzip.Backend.Shared.{IsShared}

abbrev zeros : List ℕ → Bool
zeros [] = true
zeros (x ∷ xs) = x == 0 && zeros xs

abbrev pub toy_compress : List ℕ → List ℕ
toy_compress b = if zeros b then 0 ∷ length b ∷ [] else 1 ∷ b

abbrev pub toy_decompress : List ℕ → Option (List ℕ)
toy_decompress [] = none
toy_decompress (zero ∷ []) = none
toy_decompress (zero ∷ n ∷ rest) = some (replicate n 0)
toy_decompress (suc k ∷ b) = some b

abbrev pub toy_props : List ℕ
toy_props = 93 ∷ 0 ∷ 0 ∷ 16 ∷ 0 ∷ []

abbrev pub toy : Libs
toy = record {
  lz4_compress = λ size b. 1;
  zpaq_compress = λ level b. toy_compress b;
  zpaq_decompress = λ room b. toy_decompress b;
  bz_compress = λ level room b. coded (toy_compress b);
  bz_decompress = λ room b. toy_decompress b;
  z_compress2 = λ level room b. coded (toy_compress b);
  z_uncompress = λ room b. toy_decompress b;
  lzma_compress = λ level dict fb n room b. sz_ok (toy_compress b) toy_props;
  lzma_uncompress = λ props room b. toy_decompress b;
  lzo1x_1_compress = λ b. toy_compress b;
  lzo1x_decompress_safe = λ room b. toy_decompress b;
  branch_x86 = λ encode pc state b. record { bytes = b; final = length b; state = state };
  branch_arm64 = λ encode pc b. record { bytes = b; final = length b; state = 0 };
  delta = λ encode distance b. b;
}

zeros-replicate : (b : List ℕ) → zeros b ≡ true → replicate (length b) 0 ≡ b
zeros-replicate [] h = refl
zeros-replicate (x ∷ xs) h =
    let e : x ≡ 0 = ground arith in rw e (ap (λ t. 0 ∷ t) (zeros-replicate xs (ground arith)))

toy_lem : (b : List ℕ) → toy_decompress (toy_compress b) ≡ some b
toy_lem b = elim (Bool-cases (zeros b)) [
  | inl e ↦ rw e (ap some (zeros-replicate b e))
  | inr e ↦ rw e
]

toy_filled : (b : List ℕ) → 1 ≤ length (toy_compress b)
toy_filled b = ground arith

bytes_of_coded : Coded → List ℕ
bytes_of_coded (coded b) = b
bytes_of_coded other = []

bytes_of_ret : LzmaRet → List ℕ
bytes_of_ret (sz_ok b p) = b
bytes_of_ret other = []

props_of_ret : LzmaRet → List ℕ
props_of_ret (sz_ok b p) = p
props_of_ret other = []

pub toy-Inverse : Inverse toy
unfolding bytes_of_coded bytes_of_ret props_of_ret
toy-Inverse = record {
  filters = record {
    x86 = λ b. refl;
    arm64 = λ b. refl;
    delta = λ distance b lo hi. refl;
    length_x86 = λ encode b. refl;
    length_arm64 = λ encode b. refl;
    length_delta = λ encode distance b. refl;
  };
  zpaq = λ level room b h. toy_lem b;
  bzip2 = λ level size room b bytes e h. rw (← ap bytes_of_coded e) (toy_lem b);
  gzip = λ level size room b bytes e h. rw (← ap bytes_of_coded e) (toy_lem b);
  lzo = λ room b h. toy_lem b;
  lzma = λ level dict fb n size room b bytes props q e c h. rw (← ap bytes_of_ret e) (toy_lem b);
  lzma_props =
      λ level dict fb n size b bytes props e. ap (λ t. get_or t 0 0) (sym (ap props_of_ret e));
  zpaq_filled = λ level b. toy_filled b;
  bzip2_filled = λ level size b bytes e. rw (← ap bytes_of_coded e) (toy_filled b);
  gzip_filled = λ level size b bytes e. rw (← ap bytes_of_coded e) (toy_filled b);
  lzo_filled = λ b. toy_filled b;
  lzma_filled = λ level dict fb n size b bytes props e. rw (← ap bytes_of_ret e) (toy_filled b);
}

abbrev pub toy_settings : Settings
toy_settings = record {
  backend = lzma;
  lz4_test = true;
  page_size = 4096;
  compression_level = 7;
  ultra = false;
  threads = 2;
  filter_mode = fixed 3;
  chunk_filter = 0;
  tmp_outbuf = false;
  blocks_done = 0;
}

abbrev pub toy_control : SharedControl
toy_control = record {
  lz4_test_done = false;
  lz4_compressible = false;
  lzma_dictsize = 2 ^ 20;
  lzma_properties = 0 ∷ 0 ∷ 0 ∷ 0 ∷ 0 ∷ [];
  lzma_prop_set = false;
  magic_written = true;
}

abbrev pub granted : ℕ → Bool
granted n = true

kind_of : FilterMode → ℕ
kind_of (fixed k) = k
kind_of other = 0

pub delta-IsMode : IsMode (fixed 3)
unfolding kind_of
delta-IsMode = record { bounded = λ kind e. omega (arith, ap kind_of e) }

pub unset-IsShared : IsShared toy_control
unset-IsShared = record { lclppb = λ e. absurd (cc) }
