-- ===== src/Labels.antt =====
-- The labels of agent slots: src/beachops/services/agent_slot_naming.py. `is_decimal` is the
-- character class of `\d`.
pub mod Bounds
use beachops.Base.{
  ℕ, ◌-◌, ◌==◌, ltb, leb, Bool, true, false, not, ◌&&◌, ◌||◌, Option, none, some, List, [], ◌∷◌,
  ◌++◌, Text, text, is_empty, text_eq, text_in, starts_with, contains, lower, strip, strip_right,
  split, take, take_before, drop, drop_while, length, any, filter, map, collapse_spaces,
  if◌then◌else◌,
}
use mathlib.Core.List.{reverse}

abbrev pub label_max_len : ℕ
label_max_len = 48

abbrev pub user_block_prefix : Text
user_block_prefix = text "[Your message]\n"

abbrev pub block_separator : Text
block_separator = text "\n\n---\n\n"

unfoldable pub random_slot_labels : List Text
random_slot_labels =
    text "Лиса"
    ∷ text "Якорь"
    ∷ text "Сокол"
    ∷ text "Компас"
    ∷ text "Маяк"
    ∷ text "Ворон"
    ∷ text "Искра"
    ∷ text "Север"
    ∷ text "Ветер"
    ∷ text "Ручей"
    ∷ text "Заря"
    ∷ text "Буря"
    ∷ text "Клинок"
    ∷ text "Щит"
    ∷ text "Стрела"
    ∷ text "Пламя"
    ∷ text "Гром"
    ∷ text "Молния"
    ∷ text "Туман"
    ∷ text "Роса"
    ∷ text "Орёл"
    ∷ text "Сова"
    ∷ text "Заяц"
    ∷ text "Барс"
    ∷ text "Волк"
    ∷ text "Кит"
    ∷ text "Каштан"
    ∷ text "Клён"
    ∷ text "Осина"
    ∷ text "Сосна"
    ∷ text "Полынь"
    ∷ text "Тмин"
    ∷ text "Мята"
    ∷ text "Чабрец"
    ∷ text "Базальт"
    ∷ text "Гранит"
    ∷ text "Кварц"
    ∷ text "Янтарь"
    ∷ text "Жемчуг"
    ∷ text "Шторм"
    ∷ text "Прилив"
    ∷ text "Камыш"
    ∷ text "Песок"
    ∷ text "Волна"
    ∷ text "Бухта"
    ∷ text "Скала"
    ∷ text "Утёс"
    ∷ text "Облако"
    ∷ text "Радуга"
    ∷ text "Звезда"
    ∷ text "Луна"
    ∷ text "Комета"
    ∷ text "Орбита"
    ∷ text "Импульс"
    ∷ text "Вектор"
    ∷ text "Сигнал"
    ∷ text "Шифр"
    ∷ text "Ключ"
    ∷ text "Замок"
    ∷ text "Карта"
    ∷ text "Флаг"
    ∷ text "Парус"
    ∷ text "Курс"
    ∷ text "Штурвал"
    ∷ text "Линза"
    ∷ text "Призма"
    ∷ text "Спектр"
    ∷ text "Эхо"
    ∷ text "Ритм"
    ∷ text "Мотив"
    ∷ text "Стих"
    ∷ text "Образ"
    ∷ text "Идея"
    ∷ text "След"
    ∷ text "Тропа"
    ∷ text "Берёзка"
    ∷ text "Кедр"
    ∷ text "Ель"
    ∷ text "Пихта"
    ∷ text "Мох"
    ∷ text "Ласка"
    ∷ text "Выдра"
    ∷ text "Куница"
    ∷ text "Рысь"
    ∷ text "Сорока"
    ∷ text "Грач"
    ∷ text "Дятел"
    ∷ text "Снег"
    ∷ text "Иней"
    ∷ text "Мороз"
    ∷ text "Сумрак"
    ∷ text "Рассвет"
    ∷ text "Утро"
    ∷ text "Вечер"
    ∷ text "Полдень"
    ∷ text "Багрянец"
    ∷ text "Закат"
    ∷ text "Гнездо"
    ∷ text "Перья"
    ∷ text "Костёр"
    ∷ []

abbrev pub generic_phrases : List Text
generic_phrases =
    text "ok"
    ∷ text "okay"
    ∷ text "yes"
    ∷ text "no"
    ∷ text "да"
    ∷ text "нет"
    ∷ text "привет"
    ∷ text "hello"
    ∷ text "hi"
    ∷ text "help"
    ∷ text "спасибо"
    ∷ text "thanks"
    ∷ text "thank you"
    ∷ []

-- `^(?:Агент \d+|Основной|.+ #\d+)$`; `.` is any character but the end of a line.
unfoldable pub is_legacy_label : (ℕ → Bool) → Text → Bool
unfolding starts_with text_eq is_empty drop_while any
is_legacy_label is_decimal s =
    let agent = drop (length (text "Агент ")) s in
    let reversed = reverse s in
    let marked = drop_while is_decimal reversed in
    let name = drop 2 marked in
    (starts_with s (text "Агент ")
      && not (is_empty agent)
      && not (any (λ c. not (is_decimal c)) agent))
    || text_eq s (text "Основной")
    || (ltb (length marked) (length reversed)
        && starts_with marked (text "# ")
        && not (is_empty name)
        && not (any (λ c. c == b'\n') name))

unfoldable pub is_auto_slot_label : (ℕ → Bool) → Text → Bool
unfolding strip text_in is_legacy_label random_slot_labels
is_auto_slot_label is_decimal label =
    let cleaned = strip label in
    text_in cleaned random_slot_labels || is_legacy_label is_decimal cleaned

unfoldable pub truncate_label : ℕ → Text → Text
unfolding strip collapse_spaces strip_right
truncate_label max_len value =
    let line = collapse_spaces (strip value) in
    if leb (length line) max_len then line else strip_right (take_before max_len line) ++ text "…"

unfoldable pub is_generic_line : Text → Bool
unfolding strip lower text_in starts_with
is_generic_line line =
    let normalized = lower (strip line) in
    is_empty normalized
    || ltb (length normalized) 8
    || text_in normalized generic_phrases
    || starts_with normalized (text "[instruction]")

abbrev pub first_part : List Text → Text
first_part [] = []
first_part (p ∷ ps) = p

unfoldable pub label_from_user_block : Text → Option Text
unfolding starts_with strip split is_generic_line truncate_label
label_from_user_block block =
    if not (starts_with block user_block_prefix)
    then none
    else (let body = strip (drop (length user_block_prefix) block) in
        let line = strip (first_part (split body (text "\n"))) in
        if is_empty body
        then none
        else if is_generic_line line
        then none
        else some (truncate_label label_max_len line))

abbrev pub forwarded_label : List Text → Option Text
forwarded_label [] = none
forwarded_label (head ∷ []) = none
forwarded_label (head ∷ line ∷ lines) =
    if not (starts_with head (text "[Forwarded"))
    then none
    else if starts_with line (text "[") || is_generic_line line
    then none
    else some (truncate_label label_max_len line)

unfoldable pub label_from_forward_block : Text → Option Text
unfolding split strip filter starts_with is_generic_line truncate_label
label_from_forward_block block =
    forwarded_label (filter (λ line. not (is_empty line)) (map strip (split block (text "\n"))))

-- `if label: return label`, and what comes after.
abbrev pub or_label : Option Text → Option Text → Option Text
or_label none rest = rest
or_label (some label) rest = if is_empty label then rest else some label

unfoldable pub first_label : (Text → Option Text) → List Text → Option Text
unfolding is_empty
first_label f [] = none
first_label f (block ∷ blocks) = or_label (f block) (first_label f blocks)

-- One block of the last loop of `label_from_prompt`.
unfoldable pub label_from_block : Text → Option Text
unfolding strip starts_with is_empty label_from_user_block label_from_forward_block
label_from_block block =
    let cleaned = strip block in
    if is_empty cleaned || starts_with cleaned (text "[Instruction]")
    then none
    else or_label (label_from_user_block cleaned) (or_label (label_from_forward_block cleaned) none)

unfoldable pub label_from_prompt : ℕ → Text → Option Text
unfolding strip contains split first_label label_from_block is_generic_line truncate_label
    label_from_user_block
label_from_prompt max_len prompt =
    let value = strip prompt in
    let blocks = split value block_separator in
    let line = strip (first_part (split value (text "\n"))) in
    let last = first_label label_from_block (reverse blocks) in
    if is_empty value
    then none
    else or_label
        (if contains value user_block_prefix
          then first_label (λ block. label_from_user_block (strip block)) blocks
          else none)
        (if not (contains value block_separator)
            && not (starts_with value (text "["))
            && not (is_generic_line line)
          then some (truncate_label max_len line)
          else last)

unfoldable pub slot_button_text : ℕ → Text → Bool → Text
unfolding strip_right
slot_button_text max_len label is_active =
    let suffix = (if is_active then text " ✓" else []) in
    let room = max_len - length suffix in
    (if leb (length label) room then label else strip_right (take_before room label) ++ text "…")
    ++ suffix
