-- ===== src/Money/Tests.antt =====
-- Amounts in print.
use omnigo_app.Common.{◌≡◌}
use omnigo_app.Common.Int.{pos}
use omnigo_app.Common.Decimal.{read_digits}
use omnigo_app.Money.{format_paisa}
use omnigo_app.Money.Laws.{read_digits-format_paisa}

read_digits-format_paisa_example : read_digits 0 (format_paisa (pos 120050)) ≡ 120050
read_digits-format_paisa_example = read_digits-format_paisa 120050
