-- ===== src/Tests/Mixer.antt =====
-- The mixing of a subcorpus for a request with two attributes.
use cnc_masm.Prelude.{ℕ, ◌/◌, ◌≡◌, ◌≤◌, refl, some, List, [], ◌∷◌, Str, str, inl, length}
use cnc_masm.LiveAttrs.Mixer.{value, panic}
use cnc_masm.LiveAttrs.Mixer.Expressions.{CategoryExpression, Expression, atom}
use cnc_masm.LiveAttrs.Mixer.Categories.{TaskArgs, virtual_cat}
use cnc_masm.LiveAttrs.Mixer.Tree.{Node, category_tree, conditions_for}
use cnc_masm.LiveAttrs.Mixer.Request.{SubcmixerRatio, import_task_args}
use cnc_masm.LiveAttrs.Mixer.Numbering.{IsNumbered}
use cnc_masm.LiveAttrs.Mixer.Built.{category_tree-import_task_args}
use cnc_masm.LiveAttrs.Mixer.Queries.{category_size_sql}
use cnc_masm.LiveAttrs.Mixer.Panics.{StartsWithNil, virtual_cat_panics}

abbrev at_most : CategoryExpression
at_most = record { attr = str "doc_year"; op = str "<="; value = str "1999" }

abbrev ratio : Str → Str → ℕ → SubcmixerRatio ℕ
ratio name v n = record { attr_name = name; attr_value = v; ratio = n }

abbrev ratios : List (SubcmixerRatio ℕ)
ratios =
    ratio (str "doc.medium") (str "book") 70
    ∷ ratio (str "doc.medium") (str "web?") 30
    ∷ ratio (str "doc.original") (str "yes") 50
    ∷ ratio (str "doc.original") (str "no") 50
    ∷ []

abbrev percent : ℕ → ℕ
percent n = n / 10

category_tree-import_task_args_example :
    (cats list : List (TaskArgs ℕ)) × (t : Node ℕ) × (import_task_args 10 percent ratios ≡ inl cats)
    × (category_tree 0 cats ≡ value (list, t))
    × (length cats ≤ length list)
    × IsNumbered (length list) t
category_tree-import_task_args_example = category_tree-import_task_args 10 percent 0 ratios

abbrev medium : Str → Expression
medium v = atom (record { attr = str "doc_medium"; op = str "=="; value = v })

abbrev under_first : List (TaskArgs ℕ)
under_first =
    record { node_id = 2; parent_id = some 1; ratio = 7; expression = medium (str "book") }
    ∷ record { node_id = 3; parent_id = some 1; ratio = 3; expression = medium (str "web") }
    ∷ []

virtual_cat_panics_example :
    let mc = conditions_for (virtual_cat 0 under_first 4 (some 1)).expression (atom at_most ∷ []) in
    StartsWithNil mc × (category_size_sql (str "syn_liveattrs_entry") (str "syn2020") [] mc ≡ panic)
virtual_cat_panics_example =
    virtual_cat_panics 0 (str "syn_liveattrs_entry") (str "syn2020") [] 4 (some 1) under_first
      (atom at_most ∷ []) refl refl
