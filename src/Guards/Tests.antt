-- ===== src/Guards/Tests.antt =====
-- The theorems of the guards at small memories, with the tool and the path as the fingerprint.
use autonomous_llm_bot.Prelude.{
  ◌+◌, ◌≤◌, String, ◌≡◌, refl, ◌≢◌, inr, true, false, not, ◌&&◌, Option, none, some, List, [], ◌∷◌,
  ◌++◌, arith, leb, nat_eq, string_eq, length, contains, eq_iff,
}
use autonomous_llm_bot.Json.{truthy, Value, text, number, Fields, no_fields, field, get}
use autonomous_llm_bot.Dict.{lookup, insert, remove}
use autonomous_llm_bot.Guards.{
  StepEnd, end_step, update_guard_block_streak, Library, tool_loop_guard_tools, tool_fingerprint,
  KnownBadCalls, evict, record_known_bad, known_bad_block, invalidate_known_bad,
  should_force_guard_think,
}
use autonomous_llm_bot.Guards.Memory.{
  IsBounded, record_known_bad-IsBounded, after_failure, blocked_as, record_known_bad-blocks,
  only_path, write_keeps_other_blocks,
}
use autonomous_llm_bot.Guards.Streak.{streak_after, Unforced, is_stuck, forced_iff_stuck}
use Prim.Native.String.{◌++◌ as append}

abbrev key_of : Option Value → Option Value → String
key_of (some (text path)) none = path
key_of (some (text path)) (some offset) = append path " in part"
key_of path offset = "other"

abbrev lib : Library
lib = record {
  codec = record {
    canonical = λ r. key_of (get "path" r) (get "offset" r);
    loads = λ s. none;
    sha256 = λ s. s;
    real_is = λ s n. false;
  };
  to_int = λ v. v;
  show = λ v. "target";
}

abbrev whole : Fields
whole = only_path "notes.md"

abbrev part : Fields
part = field "path" (text "notes.md") (field "offset" (number 5) no_fields)

whole_key : tool_fingerprint lib "read_file" whole ≡ some "read_file\0notes.md"
unfolding tool_fingerprint get
whole_key = refl

part_key : tool_fingerprint lib "read_file" part ≡ some "read_file\0notes.md in part"
unfolding tool_fingerprint get
part_key = refl

abbrev before : KnownBadCalls
before =
    (
      "read_file\0gone.md",
      record {
        tool = "read_file";
        target = "gone.md";
        error = "not_found";
        first_step = 2;
        count = 1;
      },
    )
    ∷ []

before-IsBounded : IsBounded before
unfolding contains
before-IsBounded = (ground arith, (refl, tt))

read_guarded : contains tool_loop_guard_tools "read_file" ≡ true
unfolding contains
read_guarded = refl

record_known_bad-blocks_example :
    known_bad_block lib
      (record_known_bad lib "read_file" (some whole) "not_found" "notes.md" 4 before)
      "read_file"
      (some whole)
    ≡ some (blocked_as "read_file" (after_failure 4 (lookup "read_file\0notes.md" before)))
record_known_bad-blocks_example =
    record_known_bad-blocks lib before "read_file" "read_file\0notes.md" whole "not_found"
      "notes.md" 4 (ground arith) read_guarded whole_key

abbrev full : KnownBadCalls
full =
    record_known_bad lib "read_file" (some part) "not_found" "notes.md" 5
      (record_known_bad lib "read_file" (some whole) "not_found" "notes.md" 4 before)

full-IsBounded : IsBounded full
full-IsBounded =
    record_known_bad-IsBounded lib _ "read_file" (some part) "not_found" "notes.md" 5
      record_known_bad-IsBounded_step
  where
    record_known_bad-IsBounded_step :
        IsBounded (record_known_bad lib "read_file" (some whole) "not_found" "notes.md" 4 before)
    record_known_bad-IsBounded_step =
        record_known_bad-IsBounded lib before "read_file" (some whole) "not_found" "notes.md" 4
          before-IsBounded

abbrev notes : String
notes = "notes.md"

path_named : notes ≢ ""
path_named e = ground (arith, eq_iff notes "")

path_given : get "path" whole ≡ some (text "notes.md")
unfolding get
path_given = refl

part_differs :
    tool_fingerprint lib "read_file" part ≢ tool_fingerprint lib "read_file" (only_path "notes.md")
part_differs e =
    ground (arith, eq_iff "read_file\0notes.md in part" "read_file\0notes.md", part_key, whole_key)

write_keeps_other_blocks_example :
    known_bad_block lib
      (invalidate_known_bad lib "write_file" (some whole) full)
      "read_file"
      (some part)
    ≡ known_bad_block lib full "read_file" (some part)
write_keeps_other_blocks_example =
    write_keeps_other_blocks lib full "notes.md" whole path_named path_given part part_differs

-- The file is there now, and its part is blocked all the same.
part_blocked :
    known_bad_block lib
      (invalidate_known_bad lib "write_file" (some whole) full)
      "read_file"
      (some part)
    ≡ some (record {
      reason = "known_failure";
      tool = "read_file";
      limit = 20;
      count = 1;
      first_step = some 5;
    })
unfolding truthy known_bad_block invalidate_known_bad record_known_bad tool_fingerprint evict get
    insert lookup remove contains
part_blocked = refl

abbrev blocked : StepEnd
blocked = record { had_block = true; think_pending = false; think_dispatched = false }

abbrev calm : StepEnd
calm = record { had_block = false; think_pending = false; think_dispatched = false }

-- The third blocked step in a row forces thinking, and so does the third one behind it.
abbrev earlier : List StepEnd
earlier = calm ∷ blocked ∷ blocked ∷ []

forced_at_third : (end_step 3 (streak_after 3 0 earlier) blocked).0 ≡ true
unfolding end_step streak_after update_guard_block_streak should_force_guard_think
forced_at_third = refl

unforced : Unforced 3 0 (blocked ∷ blocked ∷ [])
unfolding end_step update_guard_block_streak should_force_guard_think
unforced = (refl, (refl, tt))

forced_iff_stuck_example :
    let reached = streak_after 3 0 (earlier ++ blocked ∷ (blocked ∷ blocked ∷ [])) in
    (is_stuck blocked ≡ true
      → (end_step 3 reached blocked).0
        ≡ (not blocked.think_pending && leb 3 (length (blocked ∷ blocked ∷ []) + 1)))
    × (is_stuck blocked ≡ false → 1 ≤ 3 → (end_step 3 reached blocked).0 ≡ false)
forced_iff_stuck_example =
    forced_iff_stuck 3 0 earlier (blocked ∷ blocked ∷ []) blocked blocked (inr forced_at_third)
      (refl, (refl, tt)) unforced
