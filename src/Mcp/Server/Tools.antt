-- ===== src/Mcp/Server/Tools.antt =====
-- internal/mcp: the descriptors of the tools (pingTool and serverInfoTool of tools.go, execTool of
-- exec_tool.go, uploadTool of upload_tool.go), and which tools NewHandler registers.
use raxd.Prelude.{List, [], ◌∷◌}
use raxd.Server.Audit.{Message, text, Tool, ping, server_info, execute_command, upload_file}

-- The schemas are derived by the SDK from the types of the inputs.
pub record Descriptor : Type 0 where
  pub name : Tool
  pub description : Message

abbrev pub ping_tool : Descriptor
ping_tool = record {
  name = ping;
  description =
      text "Проверка живости MCP-канала к raxd. Возвращает \"pong\". Без побочных "
      ∷ text "эффектов на хосте."
      ∷ [];
}

abbrev pub server_info_tool : Descriptor
server_info_tool = record {
  name = server_info;
  description =
      text "Версия и базовые сведения о демоне raxd без секретов: имя продукта, "
      ∷ text "версия, версия протокола MCP."
      ∷ [];
}

abbrev pub exec_tool : Descriptor
exec_tool = record {
  name = execute_command;
  description =
      text "Выполнить НЕинтерактивную команду на хосте raxd формой «бинарь + "
      ∷ text "список аргументов» (БЕЗ shell: метасимволы ;|$()&&>` трактуются как "
      ∷ text "литеральные аргументы). Возвращает stdout/stderr/код "
      ∷ text "возврата/длительность/флаги усечения и таймаута. Ограничения: "
      ∷ text "обязательный таймаут (по умолчанию из конфига, есть жёсткий "
      ∷ text "максимум); вывод и аргументы лимитированы; рабочая директория и "
      ∷ text "окружение контролируются сервером; при включённом allowlist разрешены "
      ∷ text "только перечисленные команды. НЕ принимает переменные окружения от "
      ∷ text "клиента. Каждый вызов проходит аутентификацию и аудит."
      ∷ [];
}

abbrev pub upload_tool : Descriptor
upload_tool = record {
  name = upload_file;
  description =
      text "Записать ОДИН обычный файл на хост raxd в безопасный каталог загрузок "
      ∷ text "(upload root). Путь задаётся относительным к upload root; запись "
      ∷ text "возможна ТОЛЬКО внутрь корня — попытка выйти наружу через '..', "
      ∷ text "абсолютный путь или симлинк наружу отклоняется. Содержимое передаётся "
      ∷ text "в кодировке base64. Размер декодированного содержимого ограничен "
      ∷ text "серверным лимитом. По умолчанию существующий файл НЕ перезаписывается "
      ∷ text "(нужен overwrite:true). Права создаваемого файла контролируются (по "
      ∷ text "умолчанию 0600; биты setuid/setgid/sticky и world-writable "
      ∷ text "запрещены). Инструмент создаёт только обычный файл, не повышает "
      ∷ text "привилегии и не меняет владельца. Возвращает записанный относительный "
      ∷ text "путь, размер, флаг перезаписи и итоговый режим. Каждый вызов проходит "
      ∷ text "аутентификацию и аудит; содержимое файла в аудит не пишется."
      ∷ [];
}

-- The descriptors in the order of AddTool.
abbrev pub tools : List Descriptor
tools = ping_tool ∷ server_info_tool ∷ exec_tool ∷ upload_tool ∷ []
