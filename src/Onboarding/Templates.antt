-- ===== src/Onboarding/Templates.antt =====
-- internal/onboarding/templates.go: the starter flows.
use cuddly_lamp.Prelude.{ℕ, Bool, true, false, Option, List, [], ◌∷◌, find_first}
use cuddly_lamp.Text.{Text, text, text_eq}
use cuddly_lamp.Model.Onboarding.{StepKind, VerifiedCheck, StepConfig}

pub record TemplateStep : Type 0 where
  pub kind : StepKind
  pub title : Text
  pub body : Text
  pub config : StepConfig
  pub is_required : Bool
  pub estimated_minutes : ℕ

pub record Template : Type 0 where
  pub id : Text
  pub label : Text
  pub description : Text
  pub steps : List TemplateStep

-- A config whose fields are all left out.
abbrev pub no_config : StepConfig
no_config = record {
  repository_id = [];
  team_id = [];
  doc_generation_id = [];
  doc_type = [];
  repository_ids = [];
  term_ids = [];
  people = [];
  items = [];
  url = [];
  label = [];
  instructions = [];
  task_url = [];
  check = VerifiedCheck.unknown_check [];
}

unfoldable pub note : Text → Text → TemplateStep
note title body = record {
  kind = StepKind.markdown;
  title = title;
  body = body;
  config = no_config;
  is_required = false;
  estimated_minutes = 2;
}

unfoldable pub general : Template
unfolding note
general = record {
  id = text "general";
  label = text "Onboarding geral";
  description = text "Serve para qualquer pessoa que entra na organização, técnica ou não.";
  steps =
      (record {
        kind = StepKind.markdown;
        title = text "Bem-vindo";
        body =
            text
              "# Bem-vindo\n\nEscreva aqui o que a organização faz, para quem, e o que muda com a chegada dessa pessoa.\n\nDuas ou três frases valem mais que uma página.";
        config = no_config;
        is_required = true;
        estimated_minutes = 5;
      })
      ∷ (record {
        kind = StepKind.markdown;
        title = text "Como trabalhamos";
        body =
            text
              "## Como trabalhamos\n\nRituais, canais, horários combinados, o que é assíncrono e o que não é.\n\nSe existe um documento sobre isso, prefira um passo do tipo `doc` apontando para ele — assim não há duas versões.";
        config = no_config;
        is_required = true;
        estimated_minutes = 10;
      })
      ∷ (record {
        kind = StepKind.glossary;
        title = text "Vocabulário interno";
        body = [];
        config = no_config;
        is_required = false;
        estimated_minutes = 5;
      })
      ∷ note (text "Adicione as pessoas de referência") (
          text
            "Troque este passo por um do tipo **contatos**, indicando quem procurar para acesso, para dúvida de produto e para urgência de produção.")
      ∷ (record {
        kind = StepKind.task;
        title = text "Primeira tarefa";
        body = [];
        config = record no_config {
          instructions =
              text
                "Aponte o link para o board ou para a issue reservada a quem está chegando, e diga em uma frase o que se espera dessa primeira entrega.";
        };
        is_required = true;
        estimated_minutes = 15;
      })
      ∷ [];
}

unfoldable pub backend_dev : Template
unfolding note
backend_dev = record {
  id = text "backend-dev";
  label = text "Dev backend";
  description = text "Serviços, integrações e o caminho de uma mudança até produção.";
  steps =
      (record {
        kind = StepKind.markdown;
        title = text "Bem-vindo ao time de backend";
        body =
            text
              "# Bem-vindo\n\nO que os serviços fazem, quais são os limites entre eles, e onde essa pessoa vai mexer primeiro.";
        config = no_config;
        is_required = true;
        estimated_minutes = 5;
      })
      ∷ (record {
        kind = StepKind.architecture;
        title = text "Como os serviços se relacionam";
        body = [];
        config = no_config;
        is_required = true;
        estimated_minutes = 10;
      })
      ∷ note (text "Apresente os serviços principais") (
          text
            "Troque este passo por um do tipo **repositório** para cada serviço que a pessoa vai tocar nas primeiras semanas. Cada um traz o stack, o scorecard e o time responsável, sempre atualizados.")
      ∷ note (text "Apresente o time responsável") (
          text
            "Troque este passo por um do tipo **time**, para a pessoa saber quem responde pelo quê antes de precisar perguntar.")
      ∷ (record {
        kind = StepKind.checklist;
        title = text "Ambiente local";
        body = [];
        config = record no_config {
          items =
              (record { label = text "Clonar o repositório principal"; url = [] })
              ∷ (record {
                label = text "Instalar as dependências e rodar a suíte de testes";
                url = [];
              })
              ∷ (record { label = text "Subir o ambiente local e acessar a aplicação"; url = [] })
              ∷ (record { label = text "Conseguir acesso aos serviços que o time usa"; url = [] })
              ∷ [];
        };
        is_required = true;
        estimated_minutes = 30;
      })
      ∷ (record {
        kind = StepKind.glossary;
        title = text "Vocabulário interno";
        body = [];
        config = no_config;
        is_required = false;
        estimated_minutes = 5;
      })
      ∷ (record {
        kind = StepKind.verified;
        title = text "Você já está num time";
        body = [];
        config = record no_config { check = VerifiedCheck.team_membership };
        is_required = false;
        estimated_minutes = 1;
      })
      ∷ note (text "Verifique a primeira contribuição") (
          text
            "Adicione um passo do tipo **verificado** com a checagem `first_change_request` apontando para o repositório onde essa pessoa vai abrir o primeiro PR ou MR. A plataforma confirma sozinha quando acontecer.")
      ∷ [];
}

unfoldable pub frontend_dev : Template
unfolding note
frontend_dev = record {
  id = text "frontend-dev";
  label = text "Dev frontend";
  description = text "Interface, design system e o contrato com a API.";
  steps =
      (record {
        kind = StepKind.markdown;
        title = text "Bem-vindo ao time de frontend";
        body =
            text
              "# Bem-vindo\n\nQuais produtos existem, quem são os usuários, e o que está em construção agora.";
        config = no_config;
        is_required = true;
        estimated_minutes = 5;
      })
      ∷ note (text "Apresente o app principal") (
          text "Troque este passo por um do tipo **repositório** apontando para o front principal.")
      ∷ (record {
        kind = StepKind.markdown;
        title = text "Design system e convenções";
        body =
            text
              "## Design system\n\nOnde vivem os tokens e os componentes, e o que se pode ou não criar por fora.\n\nSe houver documentação gerada, prefira um passo do tipo `doc`.";
        config = no_config;
        is_required = true;
        estimated_minutes = 15;
      })
      ∷ (record {
        kind = StepKind.checklist;
        title = text "Ambiente local";
        body = [];
        config = record no_config {
          items =
              (record { label = text "Clonar o repositório do front"; url = [] })
              ∷ (record { label = text "Instalar as dependências e subir o dev server"; url = [] })
              ∷ (record { label = text "Rodar os testes e o lint"; url = [] })
              ∷ [];
        };
        is_required = true;
        estimated_minutes = 20;
      })
      ∷ (record {
        kind = StepKind.task;
        title = text "Primeira tarefa";
        body = [];
        config = record no_config {
          instructions =
              text
                "Aponte o link para o board ou para a issue reservada a quem está chegando, e diga em uma frase o que se espera dessa primeira entrega.";
        };
        is_required = true;
        estimated_minutes = 15;
      })
      ∷ [];
}

unfoldable pub templates : List Template
unfolding general backend_dev frontend_dev
templates = general ∷ backend_dev ∷ frontend_dev ∷ []

unfoldable pub template_by_id : Text → Option Template
template_by_id id = find_first (λ t. text_eq t.id id) templates
