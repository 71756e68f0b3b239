-- ===== src/LuaWrapper/Key.antt =====
-- The keys that LuaWrapper.h uses in Lua's tables, and the names under which the classes and the
-- functions are entered, by the codes of their characters.
use socketforioswinandroid.Common.{ℕ, List, [], ◌∷◌}

abbrev pub metatable : List ℕ
metatable = 95 ∷ 95 ∷ 109 ∷ 101 ∷ 116 ∷ 97 ∷ 116 ∷ 97 ∷ 98 ∷ 108 ∷ 101 ∷ []

abbrev pub index : List ℕ
index = 95 ∷ 95 ∷ 105 ∷ 110 ∷ 100 ∷ 101 ∷ 120 ∷ []

abbrev pub new_index : List ℕ
new_index = 95 ∷ 95 ∷ 110 ∷ 101 ∷ 119 ∷ 105 ∷ 110 ∷ 100 ∷ 101 ∷ 120 ∷ []

abbrev pub to_string : List ℕ
to_string = 95 ∷ 95 ∷ 116 ∷ 111 ∷ 115 ∷ 116 ∷ 114 ∷ 105 ∷ 110 ∷ 103 ∷ []

abbrev pub gc : List ℕ
gc = 95 ∷ 95 ∷ 103 ∷ 99 ∷ []

abbrev pub call : List ℕ
call = 95 ∷ 95 ∷ 99 ∷ 97 ∷ 108 ∷ 108 ∷ []

abbrev pub mode : List ℕ
mode = 95 ∷ 95 ∷ 109 ∷ 111 ∷ 100 ∷ 101 ∷ []

abbrev pub new : List ℕ
new = 110 ∷ 101 ∷ 119 ∷ []

abbrev pub userdata : List ℕ
userdata = 117 ∷ 115 ∷ 101 ∷ 114 ∷ 100 ∷ 97 ∷ 116 ∷ 97 ∷ []

abbrev pub do_not_trash : List ℕ
do_not_trash = 100 ∷ 111 ∷ 32 ∷ 110 ∷ 111 ∷ 116 ∷ 32 ∷ 116 ∷ 114 ∷ 97 ∷ 115 ∷ 104 ∷ []

abbrev pub socketext : List ℕ
socketext = 115 ∷ 111 ∷ 99 ∷ 107 ∷ 101 ∷ 116 ∷ 101 ∷ 120 ∷ 116 ∷ []

abbrev pub eng : List ℕ
eng = 101 ∷ 110 ∷ 103 ∷ []
