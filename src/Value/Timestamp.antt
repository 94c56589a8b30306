-- ===== src/Value/Timestamp.antt =====
-- src/value.rs, `timestamp`: the text by which SQLite stores an instant.
use sqly.Shared.{ℕ, zero, suc, ◌-◌, ◌/◌, [], ◌∷◌, ◌++◌, length}
use sqly.Shared.Int.{ℤ, pos, negsuc}
use sqly.Shared.Bytes.{Text, bytes, decimal}
use sqly.Foreign.{Utc}

abbrev zeros : ℕ → Text
zeros zero = []
zeros (suc n) = b'0' ∷ zeros n

-- `{:0w}` of a number without a sign.
unfoldable pub pad : ℕ → ℕ → Text
unfolding decimal
pad w n = zeros (w - length (decimal n)) ++ decimal n

-- `{:0w}` of a signed number counts the sign.
unfoldable pub pad_ℤ : ℕ → ℤ → Text
unfolding pad
pad_ℤ w (pos n) = pad w n
pad_ℤ w (negsuc n) = b'-' ∷ pad (w - 1) (suc n)

-- Of the instant in UTC; `microsecond` is the nanosecond without its last three digits.
unfoldable pub timestamp : Utc → Text
unfolding pad pad_ℤ
timestamp u =
    pad_ℤ 4 u.year
    ++ (bytes "-"
        ++ (pad 2 u.month
            ++ (bytes "-"
                ++ (pad 2 u.day
                    ++ (bytes "T"
                        ++ (pad 2 u.hour
                            ++ (bytes ":"
                                ++ (pad 2 u.minute
                                    ++ (bytes ":"
                                        ++ (pad 2 u.second
                                            ++ (bytes "."
                                                ++ (pad 6 (u.nanosecond / 1000)
                                                    ++ bytes "Z"))))))))))))
