-- ===== src/LuaWrapper/Message.antt =====
-- The texts that LuaPlus::call leaves on the stack, by the codes of their characters.
use socketforioswinandroid.Common.{ℕ, List, [], ◌∷◌, ◌++◌}

-- "%s missing method '%s'"
abbrev pub missing_method : List ℕ → List ℕ → List ℕ
missing_method class_name method =
    class_name
    ++ ((32 ∷ 109 ∷ 105 ∷ 115 ∷ 115 ∷ 105 ∷ 110 ∷ 103 ∷ 32 ∷ 109 ∷ 101 ∷ 116 ∷ 104 ∷ 111 ∷ 100 ∷ 32
          ∷ 39 ∷ [])
        ++ (method ++ (39 ∷ [])))

-- "(error with no message)"
abbrev pub no_message : List ℕ
no_message =
    40 ∷ 101 ∷ 114 ∷ 114 ∷ 111 ∷ 114 ∷ 32 ∷ 119 ∷ 105 ∷ 116 ∷ 104 ∷ 32 ∷ 110 ∷ 111 ∷ 32 ∷ 109 ∷ 101
    ∷ 115 ∷ 115 ∷ 97 ∷ 103 ∷ 101 ∷ 41 ∷ []

-- "%s:%s status = %d\n%s"
abbrev pub failed_call : List ℕ → List ℕ → List ℕ → List ℕ → List ℕ
failed_call class_name method status msg =
    class_name
    ++ ((58 ∷ [])
        ++ (method
            ++ ((32 ∷ 115 ∷ 116 ∷ 97 ∷ 116 ∷ 117 ∷ 115 ∷ 32 ∷ 61 ∷ 32 ∷ [])
                ++ (status ++ ((10 ∷ []) ++ msg)))))
