-- ===== src/FilePath.antt =====
-- Equality of `std::path::PathBuf` on Unix: paths are equal if their components are. Repeated and
-- final separators leave no component, nor does `.`, unless it begins a relative path.
use ssh_rocket.Base.{Bool, true, false, not, ◌&&◌, ◌||◌, List, [], ◌∷◌, if◌then◌else◌, retain}
use ssh_rocket.Text.{Text, str_eq, is_empty, is_char, split, codes, starts_with}

abbrev dot : Text
dot = b'.' ∷ []

-- The leading `.` of a relative path, if there is one.
leading_dot : List Text → List Text
leading_dot [] = []
leading_dot (w ∷ ws) = if str_eq w dot then dot ∷ [] else []

-- The names between the separators.
unfoldable pub path_names : Text → List Text
path_names p = retain (λ w. not (is_empty w || str_eq w dot)) (split (is_char b'/') p)

texts_eq : List Text → List Text → Bool
texts_eq [] [] = true
texts_eq (x ∷ xs) (y ∷ ys) = str_eq x y && texts_eq xs ys
texts_eq _ _ = false

bool_eq : Bool → Bool → Bool
bool_eq true b = b
bool_eq false b = not b

unfoldable pub path_eq : Text → Text → Bool
unfolding texts_eq bool_eq leading_dot path_names str_eq starts_with split
path_eq a b =
    bool_eq (starts_with a (codes "/")) (starts_with b (codes "/"))
    && texts_eq (leading_dot (split (is_char b'/') a)) (leading_dot (split (is_char b'/') b))
    && texts_eq (path_names a) (path_names b)
