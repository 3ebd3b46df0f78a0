-- ===== src/Source/Names/Tests.antt =====
-- The lookup of names in compile.c: runs, and the theorems at concrete names.
use mcp_forth.Prelude.{◌≡◌, refl, ◌↔◌, false, some, [], arith, get_or, codes}
use mcp_forth.Source.Names.{find_nstring, builtins}
use mcp_forth.Source.Names.Find.{FirstAt, find_nstring_iff, find_nstring-builtins}

find_upper_case : find_nstring builtins (codes "DUP") false ≡ some 0
unfolding find_nstring
find_upper_case = refl

find_nstring_iff_example :
    (find_nstring builtins (codes "2Dup") false ≡ some 49) ↔ FirstAt builtins (codes "2Dup") 49
find_nstring_iff_example = find_nstring_iff builtins (codes "2Dup") 49

find_nstring-builtins_example : find_nstring builtins (get_or builtins 62 []) false ≡ some 62
find_nstring-builtins_example = find_nstring-builtins 62 (omega arith)
