-- ===== src/Value/Codec.antt =====
-- src/value.rs: the macro `codec!`, and `Encode` of borrowed texts, bytes and options.

use sqly.Shared.{Option, List, ℕ, none, some}
use sqly.Shared.Bytes.{Text}
use sqly.Error.{Result, ok, ◌>>=◌}
use sqly.Value.Defs.{}

-- `codec!` at a type: its `Encode`, that of its reference, and its `Decode`.
unfoldable pub codec_encode : {A : Type 0} → A → Result A
codec_encode value = ok value

unfoldable pub codec_encode_ref : {A : Type 0} → A → Result A
codec_encode_ref value = ok value

unfoldable pub codec_decode : {A : Type 0} → A → Result A
codec_decode value = ok value

-- `impl Encode for &str` and for `&[u8]`.
unfoldable pub encode_str : Text → Result Text
encode_str value = ok value

unfoldable pub encode_slice : List ℕ → Result (List ℕ)
encode_slice value = ok value

-- `impl Encode for &Option<T>`, over the impl of `&T`.
unfoldable pub option_encode_ref : {A R : Type 0} → (A → Result R) → Option A → Result (Option R)
option_encode_ref encode none = ok none
option_encode_ref encode (some a) = encode a >>= λ r. ok (some r)
