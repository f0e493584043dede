-- ===== src/Store/Strip.antt =====
-- `str.strip`, as ragra/db/repo.py uses it on a title.
use ragra_reminder.Prelude.{ℕ, Bool, ◌&&◌, ◌||◌, [], ◌∷◌, Text, ◌==◌, leb, is_empty, if◌then◌else◌}

-- The white space that `str.strip` removes.
abbrev pub is_space : ℕ → Bool
is_space c =
    (leb 9 c && leb c 13)
    || ((leb 28 c && leb c 32)
        || ((c == 0x85 || c == 0xa0)
            || ((c == 0x1680 || (leb 0x2000 c && leb c 0x200a))
                || ((c == 0x2028 || c == 0x2029)
                    || (c == 0x202f || (c == 0x205f || c == 0x3000))))))

abbrev pub lstrip : Text → Text
lstrip [] = []
lstrip (c ∷ s) = let rest = lstrip s in if is_space c then rest else c ∷ s

-- Trailing white space goes once what follows it is gone.
abbrev pub rstrip : Text → Text
rstrip [] = []
rstrip (c ∷ s) = let rest = rstrip s in if is_space c && is_empty rest then [] else c ∷ rest

abbrev pub strip : Text → Text
strip s = rstrip (lstrip s)
